-- ===== src/Ipc/Delivery.antt =====
-- The rounds of `WanMgr_IpcNewIpv4Msg` and `WanMgr_IpcNewIpv6Msg` on a table that other threads change.
use rdk_wanmanager.Common.{
  ℕ, zero, suc, ◌+◌, ◌≤◌, ◌<◌, ◌≡◌, refl, sym, ap, subst, ◌⊎◌, inl, inr, Bool, true, false, ◌&&◌,
  Option, none, some, if◌then◌else◌, arith, Bool-cases, ltb,
}
use native.Mathlib.Decide.{ℕ_discrete}
use rdk_wanmanager.Dml.{CString, Iface, Dhcpv4Msg, Dhcpv6Msg}
use rdk_wanmanager.Store.Defs.{
  Database, load, store, get_iface_data_by_name_locked, iface_data_release,
}
use rdk_wanmanager.Store.Lock.{IsWellFormed}
use rdk_wanmanager.Store.Lookup.{has_name, IsFirst, Answer, Locked, by_name_first}
use rdk_wanmanager.Ipc.Slot.{
  has_room4, has_room6, with_msg4, with_msg6, put_msg, try_msg, max_tries, deliver,
  ipc_new_ipv4_msg, ipc_new_ipv6_msg,
}

clashing : {b : Bool} → b ≡ false → b ≡ true → ⊥
clashing e f = ground arith

lt_cases : (p q : ℕ) → (p ≡ q) ⊎ ((p < q) ⊎ (q < p))
lt_cases p q = elim (ℕ_discrete p q) [
  | yes e ↦ inl e
  | no d ↦ elim (Bool-cases (ltb p q)) [
    | inl l ↦ inr (inl (ground arith))
    | inr l ↦ inr (inr (ground arith))
  ]
]

first_unique :
    (db : Database) (name : CString) (i n p q : ℕ)
    → IsFirst db name i n p
    → IsFirst db name i n q
    → p ≡ q
first_unique db name i n p q a b = elim (lt_cases p q) [
  | inl e ↦ e
  | inr (inl l) ↦ absurd (clashing (b.first p a.from l) a.named)
  | inr (inr l) ↦ absurd (clashing (a.first q b.from l) b.named)
]

named_nowhere :
    (db : Database) (name : CString) (i n p : ℕ)
    → ((j : ℕ) → i ≤ j → j < n → has_name db name j ≡ false)
    → IsFirst db name i n p
    → ⊥
named_nowhere db name i n p a b = clashing (a p b.from b.below) b.named

module _ (room : Iface → Bool) (fill : Iface → Iface) (name : CString) where
  -- The message is put into the first interface with the name, which has room for it.
  abbrev pub IsPut : Database → Database → Type 0
  IsPut db db' =
      (p : ℕ) × IsFirst db name 0 db.total p
      × (room (load db p) ≡ true)
      × (db' ≡ store db p (fill (load db p)))

  -- The memory is not given, or the first interface with the name, if there is one, has no room.
  abbrev pub IsRefused : Bool → Database → Type 0
  IsRefused alloc db =
      (alloc ≡ false) ⊎ ((p : ℕ) → IsFirst db name 0 db.total p → room (load db p) ≡ false)

  -- A round that fails leaves the table as it was.
  abbrev pub Tried : Bool → Database → Database × Bool → Type 0
  Tried alloc db r =
      ((r.1 ≡ false) × (r.0 ≡ db) × IsRefused alloc db) ⊎ ((r.1 ≡ true) × IsPut db r.0)

  full_at :
      (db : Database) (alloc : Bool) (p : ℕ)
      → (room (load db p) && alloc) ≡ false
      → IsFirst db name 0 db.total p
      → IsRefused alloc db
  full_at db true p e a = inr (λ q b.
      subst (λ p. room (load db p) ≡ false) (first_unique db name 0 db.total p q a b)
        (ground arith))
  full_at db false p e a = inl refl

  put_found :
      (db : Database) (alloc : Bool) (p : ℕ) (b : Bool)
      → (room (load db p) && alloc) ≡ b
      → IsFirst db name 0 db.total p
      → Tried alloc db (if b then (store db p (fill (load db p)), true) else (db, false))
  put_found db alloc p true e a = inr (refl, (p, a, ground arith, refl))
  put_found db alloc p false e a = inl (refl, refl, full_at db alloc p e a)

  put_lem :
      (db db1 : Database) (alloc : Bool) (r : Option ℕ)
      → Answer db name 0 db.total r
      → Locked db r db1
      → Tried alloc db (put_msg room fill alloc (db1, r))
  unfolding put_msg iface_data_release store load
  put_lem db db1 alloc none a e =
      inl (refl, e, inr (λ p b. absurd (named_nowhere db name 0 db.total p a b)))
  put_lem db db1 alloc (some p) a e =
      subst (λ d. Tried alloc db (put_msg room fill alloc (d, some p))) (sym e)
        (put_found db alloc p (room (load db p) && alloc) refl a)

  failed_round :
      {alloc : Bool} {db : Database} {r : Database × Bool}
      → Tried alloc db r
      → r.1 ≡ false
      → IsRefused alloc db
  failed_round (inl (f, d, w)) e = w
  failed_round (inr (s, p)) e = cc

  pub try_msg-Tried :
      (db : Database) (alloc : Bool)
      → IsWellFormed db
      → Tried alloc db (try_msg room fill name alloc db)
  unfolding try_msg
  try_msg-Tried db alloc v =
      let g = get_iface_data_by_name_locked db name in
      let (a, l) = by_name_first db name v in put_lem db g.0 alloc g.1 a l

module _ (others : ℕ → Database → Database) (alloc : ℕ → Bool) (db : Database) where
  -- The table before round `j`, if the rounds before it fail.
  unfoldable pub table_at : ℕ → Database
  table_at zero = db
  table_at (suc j) = others j (table_at j)

  module _ (room : Iface → Bool) (fill : Iface → Iface) (name : CString) where
    -- The rounds from `i` to `n` are refused, or one of them puts the message into its table.
    abbrev pub Delivered : ℕ → ℕ → Database × Bool → Type 0
    Delivered i n r =
        ((r.1 ≡ false)
          × ((j : ℕ) → i ≤ j → j < n → IsRefused room fill name (alloc j) (table_at j)))
        ⊎ ((r.1 ≡ true) × ((j : ℕ) × (i ≤ j) × (j < n) × IsPut room fill name (table_at j) r.0))

  module _ (room : Iface → Bool) (fill : Iface → Iface) (name : CString)
      (v : (j : ℕ) → IsWellFormed (table_at j)) where
    Delivered-step :
        (i n : ℕ) (b : Bool) (rest : Database × Bool)
        → i < n
        → let r = try_msg room fill name (alloc i) (table_at i) in
          r.1 ≡ b
          → (b ≡ false → Delivered room fill name (i + 1) n rest)
          → Delivered room fill name i n (if b then r else rest)
    Delivered-step i n true rest h e d =
        elim (try_msg-Tried room fill name (table_at i) (alloc i) (v i)) [
          | inl (f, _, _) ↦ ground arith
          | inr (s, p) ↦ inr (s, (i, omega arith, h, p))
        ]
    Delivered-step i n false rest h e d = elim (d refl) [
      | inl (f, a) ↦ inl (
        f,
        λ j k l. elim (ℕ_discrete i j) [
          | yes q ↦
              subst (λ x. IsRefused room fill name (alloc x) (table_at x)) q
                (failed_round room fill name
                  (try_msg-Tried room fill name (table_at i) (alloc i) (v i)) e)
          | no q ↦ a j (omega arith) l
        ],
      )
      | inr (s, (j, k, l, p)) ↦ inr (s, (j, omega arith, l, p))
    ]

    -- After a round that fails the table is the next one.
    next_table :
        (i : ℕ)
        → let r = try_msg room fill name (alloc i) (table_at i) in
          r.1 ≡ false → others i r.0 ≡ table_at (i + 1)
    unfolding table_at
    next_table i e =
        let q : suc i ≡ i + 1 = omega arith in
        subst (λ x. others i (try_msg room fill name (alloc i) (table_at i)).0 ≡ table_at x) q
          (elim (try_msg-Tried room fill name (table_at i) (alloc i) (v i)) [
            | inl (f, d, _) ↦ ap (others i) d
            | inr (s, p) ↦ ground arith
          ])

    deliver-Delivered :
        (rounds i n : ℕ)
        → i + rounds ≡ n
        → Delivered room fill name i n (deliver others alloc room fill name rounds i (table_at i))
    unfolding deliver table_at
    deliver-Delivered zero i n e = inl (refl, λ j h k. ground arith)
    deliver-Delivered (suc rounds) i n e =
        Delivered-step i n (try_msg room fill name (alloc i) (table_at i)).1 _ (omega arith) refl
          (λ f.
            subst
              (λ d.
                Delivered room fill name (i + 1) n
                  (deliver others alloc room fill name rounds (i + 1) d))
              (sym (next_table i f)) (deliver-Delivered rounds (i + 1) n (omega arith)))

  -- A message of a DHCP client is never put over another one, and never given up while there is room:
  -- if the table stays well-formed, `WanMgr_IpcNewIpv4Msg` either fails, and then in each of its five
  -- rounds, on the table that the other threads had left, the memory was not given or the first
  -- interface with the name of the message, if there was one, had a message; or it succeeds, and then
  -- the table is that of one of the rounds, where that interface had no message, with the message put
  -- there; and so does `WanMgr_IpcNewIpv6Msg`.
  pub ipc_new_msg-Delivered :
      (msg : Dhcpv4Msg) (msg' : Dhcpv6Msg)
      → ((j : ℕ) → IsWellFormed (table_at j))
      → Delivered has_room4
          (with_msg4 msg)
          msg.interface
          0
          max_tries
          (ipc_new_ipv4_msg others alloc msg db)
        × Delivered has_room6
            (with_msg6 msg')
            msg'.ifname
            0
            max_tries
            (ipc_new_ipv6_msg others alloc msg' db)
  unfolding ipc_new_ipv4_msg ipc_new_ipv6_msg table_at
  ipc_new_msg-Delivered msg msg' v = (
    deliver-Delivered has_room4 (with_msg4 msg) msg.interface v 5 0 5 refl,
    deliver-Delivered has_room6 (with_msg6 msg') msg'.ifname v 5 0 5 refl,
  )
