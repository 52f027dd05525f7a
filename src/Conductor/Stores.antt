-- ===== src/Conductor/Stores.antt =====
-- The two stores behind the port: InMemorySessionState.ts, and RedisSessionState.ts with one key for
-- each session.
use dreamweaver.Prelude.{
  ℕ, String, true, false, Option, none, some, Dict, lookup, insert, ◌≡◌, refl, ◌∙◌, str_eq,
  lookup-insert, lookup-insert_self,
}
use dreamweaver.Session.{SessionState}
use dreamweaver.Session.Store
use dreamweaver.Session.Store.{replace, stamp}
use dreamweaver.Session.Lua.{update_script}
use dreamweaver.Conductor.{SessionPort, PortLaws}

abbrev pub in_memory : SessionPort
in_memory = record {
  Store = Dict SessionState;
  get = Store.get;
  set = Store.set;
  put = λ id state store. insert id state store;
  shares = true;
}

abbrev pub redis : SessionPort
redis = record {
  Store = Dict SessionState;
  get = λ id store. lookup id store;
  set = λ now id state store.
      insert id (update_script 10 (lookup id store) (stamp now state.snapshot)) store;
  put = λ id state store. store;
  shares = false;
}

lookup-insert_other :
    (i j : String) (state : SessionState) (store : Dict SessionState)
    → str_eq i j ≡ false
    → lookup j (insert i state store) ≡ lookup j store
lookup-insert_other i j state store h = lookup-insert i j state store ∙ rw h

replace-snapshot :
    (now : ℕ) (o : Option SessionState) (state : SessionState)
    → (replace now o state).snapshot ≡ stamp now state.snapshot
unfolding replace
replace-snapshot now none state = refl
replace-snapshot now (some p) state = refl

update_script-snapshot :
    (now : ℕ) (o : Option SessionState) (state : SessionState)
    → (update_script 10 o (stamp now state.snapshot)).snapshot ≡ stamp now state.snapshot
unfolding update_script
update_script-snapshot now none state = refl
update_script-snapshot now (some p) state = refl

-- Both stores keep the laws of the port.
pub in_memory-PortLaws : PortLaws in_memory
unfolding Store.get Store.set
in_memory-PortLaws = record {
  get-set = λ now id state store. (
    replace now (lookup id store) state,
    lookup-insert_self id _ store,
    replace-snapshot now (lookup id store) state,
  );
  get-set_other = λ now i j state store h. lookup-insert_other i j _ store h;
  get-put_other = λ i j state store h. lookup-insert_other i j state store h;
}

pub redis-PortLaws : PortLaws redis
redis-PortLaws = record {
  get-set = λ now id state store. (
    update_script 10 (lookup id store) (stamp now state.snapshot),
    lookup-insert_self id _ store,
    update_script-snapshot now (lookup id store) state,
  );
  get-set_other = λ now i j state store h. lookup-insert_other i j _ store h;
  get-put_other = λ i j state store h. refl;
}
