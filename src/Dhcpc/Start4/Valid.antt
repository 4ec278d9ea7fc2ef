-- ===== src/Dhcpc/Start4/Valid.antt =====
-- The tables after the start.
use rdk_wanmanager.Common.{
  ℕ, ◌≡◌, ◌≤◌, refl, sym, ap, ◌∙◌, subst, Bool, true, false, ◌||◌, Option, none, some,
  if◌then◌else◌, arith, ltb, ◌==◌,
}
use rdk_wanmanager.Dhcpc.Links.{Link, get_by_ins_num}
use rdk_wanmanager.Dhcpc.Links.Order.{
  AtMost-le, push_by_ins_num-Above, push_by_ins_num-All, write_link-All,
}
use rdk_wanmanager.Dhcpc.Links.Map.{at, get-push, get-write, get_by_ins_num-number}
use rdk_wanmanager.Dhcpc.Table.{Table, empty_table, next_number}
use rdk_wanmanager.Dhcpc.Table.Valid.{IsTable, written-IsTable}
use rdk_wanmanager.Dhcpc.Table.Contents.{Contents}
use rdk_wanmanager.Dhcpc.Data4.{Client4, Config4, client4_default, client4_initiation}
use rdk_wanmanager.Dhcpc.Backend4.{Hal, get_cfg, get_entry}
use rdk_wanmanager.Dhcpc.Registry4.{Image4, Blank4, load_dhcpv4, save_dhcpv4}
use rdk_wanmanager.Dhcpc.Registry4.Renewed.{load-save-IsStore}
use rdk_wanmanager.Dhcpc.Client4.{Store4, clients4, reg_set4}
use rdk_wanmanager.Dhcpc.Requests4.Valid.{IsClient, IsStore, empty-IsTable}
use rdk_wanmanager.Dhcpc.Start4.{
  Build, put_client, backend_client, backend_get, initialize4, taken, raised,
}

-- The entry that the backend has.
abbrev pub backend_entry : Hal → Client4 → Client4
backend_entry h blank = client4_initiation (get_entry h 0 (client4_default blank)).0

-- A table is well formed, and has the client of the backend, committed.
pub record IsStarted (h : Hal) (t : Table Client4) : Type 0 where
  pub table : IsTable t
  pub options : Contents IsClient t
  pub entry : Link Client4
  pub found : get_by_ins_num t.links 1 ≡ some entry
  pub committed : entry.is_new ≡ false
  pub config : (c : Config4) × (entry.content.cfg ≡ get_cfg h c)

module _ (h : Hal) (c : Client4) (number : c.cfg.instance_number ≡ 1) (base : Config4)
    (config : c.cfg ≡ get_cfg h base) (tables : IsClient c) where
  put_client-IsStarted :
      (b : Build)
      → IsTable b.table
      → Contents IsClient b.table
      → 1 ≤ b.table.max_instance
      → (o : Option (Link Client4)) → get_by_ins_num b.table.links 1 ≡ o
      → IsStarted h (put_client c o b).table
  unfolding put_client
  put_client-IsStarted b v i m none e =
      let x : Link Client4 = record {
        instance_number = c.cfg.instance_number;
        is_new = false;
        content = c;
      } in
      let missing : get_by_ins_num b.table.links x.instance_number ≡ none =
        ap (get_by_ins_num b.table.links) number ∙ e in
      record {
        table = record {
          ordered =
              push_by_ins_num-Above 0 b.table.links x v.ordered (omega (arith, number)) missing;
          counted =
              push_by_ins_num-All (λ y. y.instance_number ≤ b.table.max_instance) b.table.links x
                v.counted (omega (arith, number));
        };
        options = push_by_ins_num-All (λ y. IsClient y.content) b.table.links x i tables;
        entry = x;
        found = ground (arith, get-push b.table.links x 1 missing, number);
        committed = refl;
        config = (base, config);
      }
  put_client-IsStarted b v i m (some y) e =
      let n : y.instance_number ≡ 1 = get_by_ins_num-number 1 b.table.links y e in
      record {
        table =
            written-IsTable b.table y.instance_number (taken c) b.table.alias_backup (λ y. refl) v;
        options =
            write_link-All (λ y. IsClient y.content) (taken c) y.instance_number b.table.links
              (λ y p. p) i;
        entry = taken c y;
        found =
            get-write (taken c) (λ y. refl) y.instance_number 1 b.table.links
            ∙ written_found y.instance_number y n e;
        committed = refl;
        config = (base, config);
      }
    where
      written_found :
          (m : ℕ) (y : Link Client4)
          → m ≡ 1
          → get_by_ins_num b.table.links 1 ≡ some y
          → (if m == 1
              then at (taken c) (get_by_ins_num b.table.links 1)
              else get_by_ins_num b.table.links 1)
            ≡ some (taken c y)
      written_found m y n e = ground (arith, n, e)

raised_by :
    (b : Bool) (t : Table Client4) (n : ℕ)
    → b ≡ ltb t.max_instance n
    → IsTable t
    → Contents IsClient t
    → let u : Table Client4 = if b then record t { max_instance = n } else t in
      IsTable u × Contents IsClient u × (n ≤ u.max_instance)
raised_by true t n e v i = (
  record {
    ordered = v.ordered;
    counted = AtMost-le t.max_instance n t.links (ground arith) v.counted;
  },
  i,
  omega arith,
)
raised_by false t n e v i = (v, i, ground arith)

module _ (h : Hal) (blank : Client4) where
  backend_client-IsStarted :
      (c : Client4) (base : Config4) (b : Build)
      → c.cfg ≡ get_cfg h base
      → c.cfg.instance_number ≡ 1
      → IsClient c
      → IsTable b.table
      → Contents IsClient b.table
      → IsStarted h (backend_client c b).0.table
  unfolding backend_client
  backend_client-IsStarted c base b config number tables v i =
      let raise : ℕ → Build = λ n. record {
        table = raised b.table n;
        need_save = b.need_save || ltb b.table.max_instance n;
      } in
      let w = raised_by (ltb b.table.max_instance 1) b.table 1 refl v i in
      subst
        (λ n.
          let round : Build × Bool =
            if n == 0
            then (
              record {
                table = record b.table { max_instance = next_number b.table.max_instance };
                need_save = true;
              },
              false,
            )
            else (put_client c (get_by_ins_num (raise n).table.links n) (raise n), true) in
          IsStarted h round.0.table)
        (sym number)
        (put_client-IsStarted h c number base config tables (raise 1) w.0 w.1 w.2
          (get_by_ins_num (raise 1).table.links 1) refl)

  backend_get-IsStarted : (s : Store4) → IsStore s → IsStarted h (clients4 (backend_get h blank s))
  unfolding backend_get get_entry get_cfg
  backend_get-IsStarted s v =
      let b : Build = record { table = clients4 s; need_save = false } in
      let c : Client4 = backend_entry h blank in
      saved (backend_client c b).0.need_save
        (record s { dhcpv4 = record s.dhcpv4 { client = (backend_client c b).0.table } })
        (backend_client-IsStarted c (record (client4_default blank).cfg { instance_number = 1 }) b
          refl refl (empty-IsTable, empty-IsTable) v.table v.options)
    where
      saved :
          (n : Bool) (s : Store4)
          → IsStarted h (clients4 s)
          → IsStarted h (clients4 (if n then reg_set4 s else s))
      saved true s v = v
      saved false s v = v

-- The store that the folder was written from, if there is a folder.
abbrev pub Saved : Option Store4 → Type 0
Saved none = Unit
Saved (some s) = IsStore s

abbrev pub image_of : Option Store4 → Option Image4
image_of none = none
image_of (some s) = some (save_dhcpv4 s.dhcpv4)

started_empty : (b : Blank4) → IsStore (record { dhcpv4 = load_dhcpv4 b none; folder = none })
unfolding load_dhcpv4 empty_table
started_empty b = record { table = record { ordered = tt; counted = tt }; options = tt }

-- Without a folder of the registry, or with the folder that was written from well-formed tables, the tables are well
-- formed after the start, and the client with the number 1 is there: committed, with the configuration that the
-- backend gives.
pub initialize4-IsStarted :
    (h : Hal) (b : Blank4) (saved : Option Store4)
    → Saved saved
    → IsStarted h (clients4 (initialize4 h b (image_of saved)))
unfolding initialize4
initialize4-IsStarted h b none v =
    backend_get-IsStarted h b.client (record { dhcpv4 = load_dhcpv4 b none; folder = none })
      (started_empty b)
initialize4-IsStarted h b (some s) v =
    let i : Image4 = save_dhcpv4 s.dhcpv4 in
    let w = load-save-IsStore b s v in
    backend_get-IsStarted h b.client (record { dhcpv4 = load_dhcpv4 b (some i); folder = some i })
      (record { table = w.table; options = w.options })
