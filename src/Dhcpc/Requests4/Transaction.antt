-- ===== src/Dhcpc/Requests4/Transaction.antt =====
-- The calls on one client of the DHCPv4 client table, one after another: an alias is set, checked, and
-- committed or rolled back.
use rdk_wanmanager.Common.{
  ◌∷◌, arith, [], inl, inr, ℕ, ◌≡◌, ◌≢◌, ◌∙◌, refl, sym, ap, Bool, true, false, Option, some, List,
  if◌then◌else◌,
}
use rdk_wanmanager.Dml.{CString, is_empty}
use rdk_wanmanager.Dhcpc.Links.{Link}
use rdk_wanmanager.Dhcpc.Links.Map.{get-write_self, get_by_ins_num-number}
use rdk_wanmanager.Dhcpc.Table.{valid, set_alias, commit_new, commit_old, rollback, restore_alias}
use rdk_wanmanager.Dhcpc.Table.Alias.{AliasCases}
use rdk_wanmanager.Dhcpc.Data4.{text, Client4, client4, client4_default}
use rdk_wanmanager.Dhcpc.Backend4.{Hal, Scanned, get_cfg, interface_of}
use rdk_wanmanager.Dhcpc.Client4.{
  Store4, clients4, client_link, ClientString, ClientBool, client_set_string, client_set_bool,
  client_validate, client_commit, client_rollback, fetch4,
}
use rdk_wanmanager.Dhcpc.Requests4.{ClientCall, on_client, follow, call_client, request4}
use rdk_wanmanager.Dhcpc.Requests4.Valid.{IsStore, client_set_string-IsStore}
use rdk_wanmanager.Dhcpc.Requests4.Added.{client_validate_lem}
use rdk_wanmanager.Dhcpc.Requests4.Isolated.{request4-SameClients}

module _ (n : ℕ) where
  -- The side of a choice that a test picks.
  first_picked :
      (c : Bool) (u w : Store4 × Bool) (r : Option (Link Client4))
      → c ≡ true
      → client_link u.0 n ≡ r
      → client_link (if c then u else w).0 n ≡ r
  first_picked true u w r e p = p
  first_picked false u w r e p = cc

  second_picked :
      (c : Bool) (u w : Store4 × Bool) (r : Option (Link Client4))
      → c ≡ false
      → client_link w.0 n ≡ r
      → client_link (if c then u else w).0 n ≡ r
  second_picked true u w r e p = cc
  second_picked false u w r e p = p

module _ (h : Hal) (g : List Scanned) (n : ℕ) (x : Link Client4) where
  call_found :
      (call : ClientCall) (s : Store4)
      → client_link s n ≡ some x
      → request4 h g (on_client n call) s ≡ call_client h call x s
  unfolding request4
  call_found call s e = ap (λ o. follow (call_client h call) o s) e

  same_number : (s : Store4) → client_link s n ≡ some x → x.instance_number ≡ n
  same_number s e = get_by_ins_num-number n (clients4 s).links x e

  -- The client after its alias is set, and the alias that is saved.
  alias_set :
      (a : CString) (s : Store4)
      → client_link s n ≡ some x
      → client_link (call_client h (ClientCall.sets_string ClientString.alias a) x s) n
        ≡ some (record x { content = client4.with_alias a x.content })
  unfolding call_client client_set_string set_alias
  alias_set a s e =
      get-write_self (λ y. record y { content = client4.with_alias a y.content }) (λ y. refl) n
        x.instance_number (clients4 s).links x e (same_number s e)

  alias_saved :
      (a : CString) (s : Store4)
      → (clients4 (call_client h (ClientCall.sets_string ClientString.alias a) x s)).alias_backup
        ≡ x.content.cfg.alias
  unfolding call_client client_set_string set_alias
  alias_saved a s = refl

  rolled_back :
      (s : Store4)
      → client_link s n ≡ some x
      → client_link (call_client h ClientCall.rolls_back x s) n ≡ (
          let c : Client4 = restore_alias client4 (clients4 s).alias_backup x.content in
          some (record x { content = if x.is_new then client4_default c else fetch4 h c }))
  unfolding call_client client_rollback rollback
  rolled_back s e =
      get-write_self
        (λ y.
          let c : Client4 = restore_alias client4 (clients4 s).alias_backup y.content in
          record y { content = if y.is_new then client4_default c else fetch4 h c })
        (λ y. refl) n x.instance_number (clients4 s).links x e (same_number s e)

  committed :
      (s : Store4)
      → client_link s n ≡ some x
      → (b : Bool) → x.is_new ≡ b
      → client_link (call_client h ClientCall.commits x s) n
        ≡ some
            (if b then record x { is_new = false } else record x { content = fetch4 h x.content })
  unfolding call_client client_commit commit_new commit_old
  committed s e true b = first_picked n x.is_new _ _ _ b (
      get-write_self (λ y. record y { is_new = false }) (λ y. refl) n x.instance_number
        (clients4 s).links x e (same_number s e))
  committed s e false b = second_picked n x.is_new _ _ _ b (
      get-write_self (λ y. record y { content = fetch4 h y.content }) (λ y. refl) n
        x.instance_number (clients4 s).links x e (same_number s e))

new_content :
    (w : Bool) (b : CString) (c d : Client4)
    → w ≡ true
    → is_empty b ≡ false
    → (if w then client4_default (restore_alias client4 b c) else d)
      ≡ client4_default (client4.with_alias b c)
unfolding restore_alias
new_content true [] c d e m = cc
new_content true (y ∷ ys) c d e m = refl
new_content false b c d e m = cc

old_content :
    (h : Hal) (w : Bool) (b : CString) (c d : Client4)
    → w ≡ false
    → (if w then d else fetch4 h (restore_alias client4 b c)) ≡ fetch4 h c
unfolding restore_alias get_cfg
old_content h true b c d e = cc
old_content h false [] c d e = refl
old_content h false (y ∷ ys) c d e = refl

-- The alias of a new client is set, and rolled back: the client has its old alias again, and the default values for
-- the settings that have one; provided that the old alias is not empty.
pub new_client_rolls_back :
    (h : Hal) (g : List Scanned) (n : ℕ) (x : Link Client4) (a : CString) (s : Store4)
    → client_link s n ≡ some x
    → x.is_new ≡ true
    → is_empty x.content.cfg.alias ≡ false
    → client_link
        (request4 h g
          (on_client n ClientCall.rolls_back)
          (request4 h g (on_client n (ClientCall.sets_string ClientString.alias a)) s))
        n
      ≡ some (record x { content = client4_default x.content })
new_client_rolls_back h g n x a s e new named =
    let set_call : ClientCall = ClientCall.sets_string ClientString.alias a in
    let r : Store4 = call_client h set_call x s in
    let y : Link Client4 = record x { content = client4.with_alias a x.content } in
    let f : client_link r n ≡ some y = alias_set h g n x a s e in
    let b : CString = (clients4 r).alias_backup in
    let k : b ≡ x.content.cfg.alias = alias_saved h g n x a s in
    ap (λ r. client_link (request4 h g (on_client n ClientCall.rolls_back) r) n)
      (call_found h g n x set_call s e)
    ∙ ap (λ r. client_link r n) (call_found h g n y ClientCall.rolls_back r f)
    ∙ rolled_back h g n y r f
    ∙ ap (λ c. some (record x { content = c }))
        (new_content x.is_new b y.content (fetch4 h (restore_alias client4 b y.content)) new
          (ap is_empty k ∙ named))
    ∙ ap (λ b. some (record x { content = client4_default (client4.with_alias b x.content) })) k

old_client_fetched :
    (h : Hal) (g : List Scanned) (n : ℕ) (x : Link Client4) (s : Store4)
    → client_link s n ≡ some x
    → x.is_new ≡ false
    → (client_link (request4 h g (on_client n ClientCall.commits) s) n
        ≡ some (record x { content = fetch4 h x.content }))
      × (client_link (request4 h g (on_client n ClientCall.rolls_back) s) n
          ≡ some (record x { content = fetch4 h x.content }))
old_client_fetched h g n x s e old = (
  ap (λ r. client_link r n) (call_found h g n x ClientCall.commits s e)
      ∙ committed h g n x s e false old,
  ap (λ r. client_link r n) (call_found h g n x ClientCall.rolls_back s e)
      ∙ rolled_back h g n x s e
      ∙ ap (λ c. some (record x { content = c }))
          (old_content h x.is_new (clients4 s).alias_backup x.content
            (client4_default (restore_alias client4 (clients4 s).alias_backup x.content)) old),
)

-- The client with a text set, or with its flag set.
abbrev texted : ClientString → CString → Client4 → Client4
texted ClientString.alias v c = record c { cfg = record c.cfg { alias = v } }
texted ClientString.boot_file_name v c = record c { cfg = record c.cfg { boot_file_name = v } }
texted ClientString.interface v c = record c { cfg = record c.cfg { interface = v } }
texted ClientString.unknown v c = c

abbrev switched : ClientBool → Bool → Client4 → Client4
switched ClientBool.enable b c = record c { cfg = record c.cfg { enabled = b } }
switched ClientBool.renewal b c = c
switched ClientBool.unknown b c = c

module _ (h : Hal) (n : ℕ) (x : Link Client4) (s : Store4) (e : client_link s n ≡ some x) where
  text_set :
      (f : ClientString) (v : CString)
      → client_link (call_client h (ClientCall.sets_string f v) x s) n
        ≡ some (record x { content = texted f v x.content })
  unfolding call_client client_set_string set_alias
  text_set ClientString.alias v =
      get-write_self (λ y. record y { content = texted ClientString.alias v y.content }) (λ y. refl)
        n x.instance_number (clients4 s).links x e (same_number h [] n x s e)
  text_set ClientString.boot_file_name v =
      get-write_self (λ y. record y { content = texted ClientString.boot_file_name v y.content })
        (λ y. refl) n x.instance_number (clients4 s).links x e (same_number h [] n x s e)
  text_set ClientString.interface v =
      get-write_self (λ y. record y { content = texted ClientString.interface v y.content })
        (λ y. refl) n x.instance_number (clients4 s).links x e (same_number h [] n x s e)
  text_set ClientString.unknown v = e

  flag_set :
      (f : ClientBool) (b : Bool)
      → client_link (call_client h (ClientCall.sets_bool f b) x s) n
        ≡ some (record x { content = switched f b x.content })
  unfolding call_client client_set_bool
  flag_set ClientBool.enable b =
      get-write_self (λ y. record y { content = switched ClientBool.enable b y.content })
        (λ y. refl) n x.instance_number (clients4 s).links x e (same_number h [] n x s e)
  flag_set ClientBool.renewal b = e
  flag_set ClientBool.unknown b = e

-- The boot file name after a text is set.
abbrev pub boot_name : ClientString → CString → CString → CString
boot_name ClientString.alias v old = old
boot_name ClientString.boot_file_name v old = v
boot_name ClientString.interface v old = old
boot_name ClientString.unknown v old = old

-- The client of the backend, with the boot file name `name`.
abbrev pub erouter : Hal → CString → Link Client4 → Link Client4
erouter h name x = record x {
  content = record x.content {
    cfg = record {
      instance_number = 1;
      alias = text "eRouter";
      enabled = true;
      interface = interface_of h.get_ert_ifname;
      passthrough_enable = true;
      passthrough_dhcp_pool = [];
      boot_file_name = name;
    };
  };
}

fetched :
    (h : Hal) (x : Link Client4) (f : ClientString) (v : CString) (k : ClientBool) (b : Bool)
    → ◌≡◌ {A = Link Client4}
        (record x { content = fetch4 h (switched k b (texted f v x.content)) })
        (erouter h (boot_name f v x.content.cfg.boot_file_name) x)
unfolding get_cfg
fetched h x f v k b = ground arith

-- The requests that set a text and a flag of a client, one after the other.
abbrev pub edited :
    Hal → List Scanned → ℕ → ClientString → CString → ClientBool → Bool → Store4 → Store4
edited h g n f v k b s =
    request4 h g (on_client n (ClientCall.sets_bool k b))
      (request4 h g (on_client n (ClientCall.sets_string f v)) s)

-- Any text and any flag of a client that the backend has are set, and then the client is committed, or rolled back.
-- Both leave the same: the alias eRouter, the instance number 1, enabled, the backend's interface, passthrough enabled
-- without a pool; so a commit drops what was set and a rollback does not restore what was there before. The boot file
-- name is the other way round: if it was set, it stays, after a rollback too.
pub old_client_resets :
    (h : Hal) (g : List Scanned) (n : ℕ) (x : Link Client4) (f : ClientString) (v : CString)
    (k : ClientBool) (b : Bool) (s : Store4)
    → client_link s n ≡ some x
    → x.is_new ≡ false
    → let r : Store4 = edited h g n f v k b s in
      let y : Link Client4 = erouter h (boot_name f v x.content.cfg.boot_file_name) x in
      (client_link (request4 h g (on_client n ClientCall.commits) r) n ≡ some y)
      × (client_link (request4 h g (on_client n ClientCall.rolls_back) r) n ≡ some y)
old_client_resets h g n x f v k b s e old =
    let r1 : Store4 = request4 h g (on_client n (ClientCall.sets_string f v)) s in
    let x1 : Link Client4 = record x { content = texted f v x.content } in
    let e1 : client_link r1 n ≡ some x1 =
      ap (λ r. client_link r n) (call_found h g n x (ClientCall.sets_string f v) s e)
      ∙ text_set h n x s e f v in
    let r2 : Store4 = edited h g n f v k b s in
    let x2 : Link Client4 = record x { content = switched k b (texted f v x.content) } in
    let e2 : client_link r2 n ≡ some x2 =
      ap (λ r. client_link r n) (call_found h g n x1 (ClientCall.sets_bool k b) r1 e1)
      ∙ flag_set h n x1 r1 e1 k b in
    let (c, u) = old_client_fetched h g n x2 r2 e2 old in
    let q : some (record x2 { content = fetch4 h x2.content })
        ≡ some (erouter h (boot_name f v x.content.cfg.boot_file_name) x) =
      ap some (fetched h x f v k b) in
    (c ∙ q, u ∙ q)

-- The store and the client after the alias of a client is set.
abbrev pub renamed : Hal → CString → Link Client4 → Store4 → Store4
renamed h a x s = call_client h (ClientCall.sets_string ClientString.alias a) x s

abbrev pub with_name : CString → Link Client4 → Link Client4
with_name a x = record x { content = client4.with_alias a x.content }

pub renamed-IsStore :
    (h : Hal) (a : CString) (x : Link Client4) (s : Store4) → IsStore s → IsStore (renamed h a x s)
unfolding call_client
renamed-IsStore h a x s v = client_set_string-IsStore s v ClientString.alias a x

other_alias :
    (h : Hal) (a : CString) (n j : ℕ) (x y : Link Client4) (s : Store4)
    → AliasCases client4
        (with_name a x)
        (clients4 (renamed h a x s))
        (client_validate (with_name a x) (renamed h a x s))
    → client_validate (with_name a x) (renamed h a x s) ≡ valid
    → is_empty (clients4 (renamed h a x s)).alias_backup ≡ false
    → client_link (renamed h a x s) j ≡ some y
    → x.instance_number ≢ j
    → y.content.cfg.alias ≢ a
other_alias h a n j x y s (inl (refused, pending, clash)) accepted named found d = cc
other_alias h a n j x y s (inr (ok, inl none_pending)) accepted named found d = cc
other_alias h a n j x y s (inr (ok, inr free)) accepted named found d = free j y found d

-- The alias of a new client is set, the check accepts it, and the client is committed: then the client is there with
-- the new alias and is no longer new, and no other client has that alias; provided that the tables are well formed and
-- that the old alias was not empty.
pub accepted_alias :
    (h : Hal) (g : List Scanned) (n : ℕ) (x : Link Client4) (a : CString) (s : Store4)
    → IsStore s
    → client_link s n ≡ some x
    → x.is_new ≡ true
    → is_empty x.content.cfg.alias ≡ false
    → client_validate (with_name a x) (renamed h a x s) ≡ valid
    → let r : Store4 = request4 h g (on_client n ClientCall.commits) (renamed h a x s) in
      (client_link r n ≡ some (record (with_name a x) { is_new = false }))
      × ((j : ℕ) (y : Link Client4) → n ≢ j → client_link r j ≡ some y → y.content.cfg.alias ≢ a)
accepted_alias h g n x a s v e new named accepted =
    let r : Store4 = renamed h a x s in
    let w : IsStore r = renamed-IsStore h a x s v in
    let z : Link Client4 = with_name a x in
    let f : client_link r n ≡ some z = alias_set h g n x a s e in
    (
      ap (λ r. client_link r n) (call_found h g n z ClientCall.commits r f)
          ∙ committed h g n z r f true new,
      λ j y d found.
          other_alias h a n j x y s (client_validate_lem z r w) accepted
            (ap is_empty (alias_saved h g n x a s) ∙ named)
            (sym (request4-SameClients h g (on_client n ClientCall.commits) r n w refl j d) ∙ found)
            (λ k. d (sym (same_number h g n x s e) ∙ k)),
    )
