-- ===== src/Dhcpc/Requests4/Valid.antt =====
-- What the requests to the DHCPv4 client table keep of its tables.
use rdk_wanmanager.Common.{refl, Bool, true, false, Option, none, some, if◌then◌else◌}
use rdk_wanmanager.Dml.{CString}
use rdk_wanmanager.Dhcpc.Links.{Link}
use rdk_wanmanager.Dhcpc.Table.{Table, del_entry, empty_table}
use rdk_wanmanager.Dhcpc.Table.Valid.{
  IsTable, HasRoom, add_entry-IsTable, del_entry-IsTable, set_alias-IsTable, commit_new-IsTable,
  commit_old-IsTable, rollback-IsTable, written-IsTable,
}
use rdk_wanmanager.Dhcpc.Table.Contents.{
  Contents, add_entry-Contents, del_entry-Contents, set_alias-Contents, commit_new-Contents,
  commit_old-Contents, rollback-Contents, written-Contents,
}
use rdk_wanmanager.Dhcpc.Data4.{Client4, SentOption4, ReqOption4, client4}
use rdk_wanmanager.Dhcpc.Backend4.{Hal}
use rdk_wanmanager.Dhcpc.Client4.{
  Store4, clients4, write_client, client_add_entry, client_del_entry, client_deleted, ClientBool,
  client_set_bool, ClientString, client_set_string, client_commit, client_rollback, fetch4,
}
use rdk_wanmanager.Dhcpc.Options4.{write_sent, write_entry, write_req}

-- The two tables of a client.
abbrev pub IsClient : Client4 → Type 0
IsClient c = IsTable c.send_option × IsTable c.req_option

abbrev pub ClientHasRoom : Client4 → Type 0
ClientHasRoom c = HasRoom c.send_option × HasRoom c.req_option

pub record IsStore (s : Store4) : Type 0 where
  pub table : IsTable (clients4 s)
  pub options : Contents IsClient (clients4 s)

-- No counter is at its end.
pub record HasRooms (s : Store4) : Type 0 where
  pub table : HasRoom (clients4 s)
  pub options : Contents ClientHasRoom (clients4 s)

pub empty-IsTable : {A : Type 0} → IsTable (empty_table {A = A})
unfolding empty_table
empty-IsTable = record { ordered = tt; counted = tt }

-- A choice keeps what both sides keep.
pub either-IsStore :
    (b : Bool) (x y : Store4 × Bool) → IsStore x.0 → IsStore y.0 → IsStore (if b then x else y).0
either-IsStore true x y i j = i
either-IsStore false x y i j = j

-- A write to the content of a client.
pub written_client :
    (x : Link Client4) (f : Client4 → Client4) (s : Store4)
    → ((c : Client4) → IsClient c → IsClient (f c))
    → IsStore s
    → IsStore (write_client x f s)
written_client x f s h v = record {
  table =
      written-IsTable (clients4 s) x.instance_number (λ y. record y { content = f y.content })
        (clients4 s).alias_backup (λ y. refl) v.table;
  options =
      written-Contents IsClient f x.instance_number (clients4 s) (clients4 s).alias_backup h
        v.options;
}

-- A client with another table of sent options, or of requested ones.
pub write_sent-IsStore :
    (p : Link Client4) (t : Table SentOption4) (s : Store4)
    → IsTable t
    → IsStore s
    → IsStore (write_sent p t s)
write_sent-IsStore p t s w v =
    written_client p (λ c. record c { send_option = t }) s (λ c k. (w, k.1)) v

pub write_req-IsStore :
    (p : Link Client4) (t : Table ReqOption4) (s : Store4)
    → IsTable t
    → IsStore s
    → IsStore (write_req p t s)
write_req-IsStore p t s w v =
    written_client p (λ c. record c { req_option = t }) s (λ c k. (k.0, w)) v

pub write_entry-IsTable :
    {A : Type 0} (x : Link A) (f : A → A) (t : Table A) → IsTable t → IsTable (write_entry x f t)
write_entry-IsTable x f t v =
    written-IsTable t x.instance_number (λ y. record y { content = f y.content }) t.alias_backup
      (λ y. refl) v

module _ (s : Store4) (v : IsStore s) where
  pub client_add_entry-IsStore :
      (m : Option Client4) → HasRoom (clients4 s) → IsStore (client_add_entry m s).0
  unfolding client_add_entry
  client_add_entry-IsStore none r = v
  client_add_entry-IsStore (some blank) r = record {
    table = add_entry-IsTable client4 blank (clients4 s) r v.table;
    options =
        add_entry-Contents client4 IsClient blank (clients4 s) (λ n. (empty-IsTable, empty-IsTable))
          v.options;
  }

  deleted-IsStore :
      (r : Table Client4 × Bool)
      → IsTable r.0
      → Contents IsClient r.0
      → IsStore (client_deleted s r).0
  unfolding client_deleted
  deleted-IsStore (t, true) i c = record { table = i; options = c }
  deleted-IsStore (t, false) i c = v

  pub client_del_entry-IsStore : (p : Link Client4) → IsStore (client_del_entry p s).0
  unfolding client_del_entry
  client_del_entry-IsStore p =
      deleted-IsStore (del_entry false p (clients4 s))
        (del_entry-IsTable false p (clients4 s) v.table)
        (del_entry-Contents IsClient false p (clients4 s) v.options)

  pub client_set_bool-IsStore :
      (f : ClientBool) (b : Bool) (p : Link Client4) → IsStore (client_set_bool f b p s).0
  unfolding client_set_bool
  client_set_bool-IsStore ClientBool.enable b p = written_client p _ s (λ c k. k) v
  client_set_bool-IsStore ClientBool.renewal b p = v
  client_set_bool-IsStore ClientBool.unknown b p = v

  pub client_set_string-IsStore :
      (f : ClientString) (t : CString) (p : Link Client4) → IsStore (client_set_string f t p s).0
  unfolding client_set_string
  client_set_string-IsStore ClientString.alias t p = record {
    table = set_alias-IsTable client4 t p (clients4 s) v.table;
    options = set_alias-Contents client4 IsClient (λ a c k. k) t p (clients4 s) v.options;
  }
  client_set_string-IsStore ClientString.boot_file_name t p = written_client p _ s (λ c k. k) v
  client_set_string-IsStore ClientString.interface t p = written_client p _ s (λ c k. k) v
  client_set_string-IsStore ClientString.unknown t p = v

  pub client_commit-IsStore : (h : Hal) (p : Link Client4) → IsStore (client_commit h p s).0
  unfolding client_commit
  client_commit-IsStore h p =
      either-IsStore p.is_new _ _
        (record {
          table = commit_new-IsTable client4 true p (clients4 s) v.table;
          options =
              commit_new-Contents client4 IsClient (λ a c k. k) (λ c k. k) true p (clients4 s)
                v.options;
        })
        (record {
          table = commit_old-IsTable client4 (fetch4 h) p (clients4 s) v.table;
          options =
              commit_old-Contents client4 IsClient (fetch4 h) p (clients4 s) (λ c k. k) v.options;
        })

  pub client_rollback-IsStore : (h : Hal) (p : Link Client4) → IsStore (client_rollback h p s)
  unfolding client_rollback
  client_rollback-IsStore h p = record {
    table = rollback-IsTable client4 (fetch4 h) p (clients4 s) v.table;
    options =
        rollback-Contents client4 IsClient (λ a c k. k) (λ c k. k) (fetch4 h) p (clients4 s)
          (λ c k. k) v.options;
  }
