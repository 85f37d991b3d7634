-- ===== src/SessionStore/Saved.antt =====
-- index.json of session_store.py against the sessions in memory: what a restart reads back.
use engineering_flow_platfor.Base.Interpreter.{Conversions}
use engineering_flow_platfor.Base.{
  String, ◌≡◌, refl, sym, ap, ◌∙◌, Bool, false, Option, none, some, [], ◌∷◌, ◌++◌, append_assoc,
  append-nil, arith, eq_iff, nat_eq, string_eq, pair_eq, All, is_empty, Dict, lookup, insert,
  IsDict, lookup-insert, insert_new,
}
use engineering_flow_platfor.SessionStore.{
  SessionRecord, SessionStore, clean_name, clean_option, to_fields, all_fields, optional, save,
}
use engineering_flow_platfor.SessionStore.Load.{
  safe_int, text_or_none, of_fields, load_record, load_entries, loaded_sessions, load,
}

-- A record that a restart reads back as it is: it has an OpenCode session and a title, its names
-- have no outer spaces, and its count is a float.
pub record IsNormal (c : Conversions) (r : SessionRecord) : Type 0 where
  pub opencode_session_id : is_empty r.opencode_session_id ≡ false
  pub title : is_empty r.title ≡ false
  pub custom_title : clean_option r.custom_title ≡ r.custom_title
  pub generated_title : clean_option r.generated_title ≡ r.generated_title
  pub message_count : c.int_of_float r.message_count ≡ some r.message_count

text_of_optional : (o : Option String) → text_or_none (optional o) ≡ o
text_of_optional none = refl
text_of_optional (some s) = refl

clean_optional : (o : Option String) → clean_name (optional o) ≡ clean_option o
clean_optional none = refl
clean_optional (some s) = refl

pub of_fields-to_fields :
    (c : Conversions) (now k : String) (r : SessionRecord)
    → IsNormal c r
    → of_fields c now k (to_fields r) ≡ r
unfolding of_fields safe_int
of_fields-to_fields c now k r h =
    rw
      (
        text_of_optional r.agent,
        text_of_optional r.model,
        clean_optional r.custom_title,
        clean_optional r.generated_title,
        h.custom_title,
        h.generated_title,
        h.message_count,
        h.title,
        h.opencode_session_id,
      )
      refl

-- the keys of `d` are new to `loaded`
abbrev NewTo : Dict String SessionRecord → Dict String SessionRecord → Type 0
NewTo loaded d = All (λ p. lookup p.0 loaded ≡ none) d

insert-NewTo :
    (k : String) (r : SessionRecord) (loaded d : Dict String SessionRecord)
    → lookup k d ≡ none
    → NewTo loaded d
    → NewTo (insert k r loaded) d
unfolding lookup
insert-NewTo k r loaded [] absent h = tt
insert-NewTo k r loaded ((j, w) ∷ d) absent h = (
  ground (arith, eq_iff k j, eq_iff j k, lookup-insert k j r loaded),
  insert-NewTo k r loaded d (ground (arith, absent)) h.1,
)

nothing-NewTo : (d : Dict String SessionRecord) → NewTo [] d
unfolding lookup
nothing-NewTo [] = tt
nothing-NewTo (p ∷ d) = (refl, nothing-NewTo d)

load_record_lem :
    (c : Conversions) (now k : String) (r : SessionRecord) (loaded : Dict String SessionRecord)
    → IsNormal c r
    → load_record k (of_fields c now k (to_fields r)) loaded ≡ insert k r loaded
unfolding load_record
load_record_lem c now k r loaded normal =
    ap (λ x. load_record k x loaded) (of_fields-to_fields c now k r normal)
    ∙ rw normal.opencode_session_id refl

load_entries-all_fields :
    (c : Conversions) (now : String) (d loaded : Dict String SessionRecord)
    → IsDict d
    → NewTo loaded d
    → All (λ p. IsNormal c p.1) d
    → load_entries c now (all_fields d) loaded ≡ loaded ++ d
unfolding load_entries all_fields
load_entries-all_fields c now [] loaded once new normal = sym (append-nil loaded)
load_entries-all_fields c now ((k, r) ∷ d) loaded once new normal =
    ap (load_entries c now (all_fields d)) (load_record_lem c now k r loaded normal.0)
    ∙ load_entries-all_fields c now d (insert k r loaded) once.1
        (insert-NewTo k r loaded d once.0 new.1) normal.1
    ∙ rw (insert_new k r loaded new.0) (append_assoc loaded ((k, r) ∷ []) d)

-- What `save` writes, `load` reads back, for sessions without double keys that are all in normal form:
-- a restart finds the same sessions, and no file is moved away.
pub load-save :
    (c : Conversions) (now : String) (moved : Bool) (s : SessionStore)
    → IsDict s.sessions
    → All (λ p. IsNormal c p.1) s.sessions
    → load c now moved (save s) ≡ save s
unfolding load save loaded_sessions
load-save c now moved s once normal =
    ap (λ d. record (save s) { sessions = d })
      (load_entries-all_fields c now s.sessions [] once (nothing-NewTo s.sessions) normal)
