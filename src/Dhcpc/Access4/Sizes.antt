-- ===== src/Dhcpc/Access4/Sizes.antt =====
-- The buffer of a string getter.
use rdk_wanmanager.Common.{ℕ, ◌+◌, ◌<◌, ◌≡◌, ◌⊎◌, inl, inr, false, length, ltb, arith, Bool-cases}
use rdk_wanmanager.Dml.{CString, is_empty}
use rdk_wanmanager.Dhcpc.Data4.{Client4}
use rdk_wanmanager.Dhcpc.Backend4.{Hal}
use rdk_wanmanager.Dhcpc.Access4.{
  StringResult, copied, too_small, read_string, ClientText, client_get_string,
}

-- A text is copied with room for the byte that ends it, or is copied when the caller asks again with the size that
-- is returned.
abbrev pub Fits : (ℕ → StringResult) → ℕ → Type 0
Fits get size =
    ((v : CString) × (get size ≡ copied v) × (length v < size))
    ⊎ ((n : ℕ) × (v : CString) × (get size ≡ too_small n) × (get n ≡ copied v) × (length v < n))

read_string-Fits : (v : CString) (size : ℕ) → Fits (read_string v) size
unfolding read_string
read_string-Fits v size = elim (Bool-cases (ltb (length v) size)) [
  | inl e ↦ inl (v, ground arith, ground arith)
  | inr e ↦ inr (length v + 1, v, ground arith, ground arith, omega arith)
]

-- The texts of which the code asks for the size that they need.
abbrev pub IsSized : ClientText → Type 0
IsSized ClientText.alias = Unit
IsSized ClientText.boot_file_name = Unit
IsSized ClientText.interface = Unit
IsSized ClientText.ip_routers = ⊥
IsSized ClientText.dns_servers = ⊥
IsSized ClientText.unknown = ⊥

-- The alias, the boot file name and the interface of a client, read into a buffer: if the text and the byte that ends
-- it fit, it is copied, and if not, nothing is, and asking again with the size that is returned copies it; provided
-- that the client's interface has a path in the data model.
client_get_string-Fits :
    (ntoa : ℕ → CString) (pam : CString → CString) (h : Hal) (n : ℕ) (t : ClientText) (c : Client4)
    (size : ℕ)
    → IsSized t
    → is_empty (pam c.cfg.interface) ≡ false
    → Fits (λ m. (client_get_string ntoa pam h n t m c).1) size
unfolding client_get_string
client_get_string-Fits ntoa pam h n ClientText.alias c size k e = read_string-Fits c.cfg.alias size
client_get_string-Fits ntoa pam h n ClientText.boot_file_name c size k e =
    read_string-Fits c.cfg.boot_file_name size
client_get_string-Fits ntoa pam h n ClientText.interface c size k e =
    rw e (read_string-Fits (pam c.cfg.interface) size)
client_get_string-Fits ntoa pam h n ClientText.ip_routers c size k e = elim k [ ]
client_get_string-Fits ntoa pam h n ClientText.dns_servers c size k e = elim k [ ]
client_get_string-Fits ntoa pam h n ClientText.unknown c size k e = elim k [ ]
