-- ===== src/ChatLog/Written.antt =====
-- What the writes of chatlog_store.py leave, in memory and in the file.
use mathlib.Core.Path.{subst}
use engineering_flow_platfor.Base.{
  String, ◌≡◌, refl, sym, ap, ◌∙◌, inl, inr, Bool, true, false, ◌||◌, some, List, [], ◌∷◌, arith,
  eq_iff, if◌then◌else◌, ◌==◌, nat_eq, string_eq, pair_eq, Bool-cases, some_inj, contains, lookup,
  lookup-insert, insert-IsDict, erase-IsDict,
}
use engineering_flow_platfor.Base.Value.{dict, Fields}
use engineering_flow_platfor.ChatLog.{
  ChatLogStore, Moment, returned, move_to_end, remember, discard, write_named, is_recent,
  add_pending, write_coalesced,
}
use engineering_flow_platfor.ChatLog.Coherent.{
  content, over, view, IsCoherentBut, IsCoherent, lookup-move_to_end, evict-IsCoherentBut,
  view-evict, evict_keeps_name,
}

pub widen : (busy : String → Bool) (s : ChatLogStore) → IsCoherent s → IsCoherentBut busy s
widen busy s c = record {
  cached_once = c.cached_once;
  filed_once = c.filed_once;
  kept = λ k idle waits. c.kept k refl waits;
  clean = λ k payload idle p written. c.clean k payload refl p written;
}

-- After `remember` only the name itself has a payload that may be neither pending nor written.
module _ (name : String) (payload : Fields) (s : ChatLogStore)
    (c : IsCoherentBut (λ k. name == k) s) where
  abbrev pub moved : ChatLogStore
  moved = record s { cache = move_to_end name payload s.cache }

  pub lookup-moved :
      (k : String) → lookup k moved.cache ≡ (if name == k then some payload else lookup k s.cache)
  lookup-moved k = lookup-move_to_end name k payload s.cache c.cached_once

  pub moved_other : (k : String) → (name == k) ≡ false → lookup k moved.cache ≡ lookup k s.cache
  moved_other k f = lookup-moved k ∙ rw f refl

  pub moved-IsCoherentBut : IsCoherentBut (λ k. name == k) moved
  moved-IsCoherentBut = record {
    cached_once = insert-IsDict name payload _ (erase-IsDict name s.cache c.cached_once);
    filed_once = c.filed_once;
    kept = λ k idle waits. let (old, p) = c.kept k idle waits in (old, moved_other k idle ∙ p);
    clean = λ k old idle p written. c.clean k old idle (sym (moved_other k idle) ∙ p) written;
  }

  pub remember-IsCoherentBut : IsCoherentBut (λ k. name == k) (remember name payload s)
  unfolding remember
  remember-IsCoherentBut = evict-IsCoherentBut (λ k. name == k) name moved moved-IsCoherentBut

  pub lookup-remember : lookup name (remember name payload s).cache ≡ some payload
  unfolding remember
  lookup-remember =
      evict_keeps_name (λ k. name == k) name moved moved-IsCoherentBut
      ∙ lookup-moved name
      ∙ rw ((eq_iff name name).1 refl) refl

  pub view-remember_other :
      (k : String) → (name == k) ≡ false → view (remember name payload s) k ≡ view s k
  unfolding remember view
  view-remember_other k idle =
      view-evict (λ k. name == k) name moved moved-IsCoherentBut k idle
      ∙ ap (λ o. over o (content (lookup k s.files))) (moved_other k idle)

-- What the busy name needs for the store to be coherent again.
pub settle :
    (name : String) (payload : Fields) (s : ChatLogStore)
    → IsCoherentBut (λ k. name == k) s
    → lookup name s.cache ≡ some payload
    → (contains name s.pending ≡ false → lookup name s.files ≡ some (some (dict payload)))
    → IsCoherent s
settle name payload s c there_now written = record {
  cached_once = c.cached_once;
  filed_once = c.filed_once;
  kept = λ k idle waits. elim (Bool-cases (name == k)) [
    | inl t ↦
        (payload, subst (λ j. lookup j s.cache ≡ some payload) ((eq_iff name k).0 t) there_now)
    | inr f ↦ c.kept k f waits
  ];
  clean = λ k old idle p free. elim (Bool-cases (name == k)) [
    | inl t ↦
        subst
          (λ j.
            contains j s.pending ≡ false
            → lookup j s.cache ≡ some old
            → lookup j s.files ≡ some (some (dict old)))
          ((eq_iff name k).0 t)
          (λ unpending q.
            written unpending ∙ ap (λ x. some (some (dict x))) (some_inj (sym there_now ∙ q)))
          free p
    | inr f ↦ c.clean k old f p free
  ];
}

pub contains-discard_other :
    (name k : String) (xs : List String)
    → (name == k) ≡ false
    → contains k (discard name xs) ≡ contains k xs
contains-discard_other name k [] f = refl
contains-discard_other name k (x ∷ xs) f = elim (Bool-cases (x == name)) [
  | inl t ↦ rw t (
      contains-discard_other name k xs f
      ∙ sym (
          ap (λ b. b || contains k xs)
            (subst (λ y. (y == k) ≡ false) (sym ((eq_iff x name).0 t)) f)))
  | inr n ↦ rw n (ap (λ b. x == k || b) (contains-discard_other name k xs f))
]

pub contains-discard : (name : String) (xs : List String) → contains name (discard name xs) ≡ false
contains-discard name [] = refl
contains-discard name (x ∷ xs) = elim (Bool-cases (x == name)) [
  | inl t ↦ rw t (contains-discard name xs)
  | inr n ↦ rw (n, n) (contains-discard name xs)
]

module _ (name : String) (xs : List String) where
  contains-add_pending : contains name (add_pending name xs) ≡ true
  contains-add_pending = elim (Bool-cases (contains name xs)) [
    | inl t ↦ rw (t, t) refl
    | inr f ↦ rw (f, (eq_iff name name).1 refl) refl
  ]

  pub contains-add_pending_other :
      (k : String) → (name == k) ≡ false → contains k (add_pending name xs) ≡ contains k xs
  contains-add_pending_other k f = elim (Bool-cases (contains name xs)) [
    | inl t ↦ rw t refl
    | inr n ↦ rw (n, f) refl
  ]

-- What a method writes under a name, a reader gets from then on, and of every other name what was
-- there; whether the file is written at once or later.
abbrev pub Writes : String → Fields → ChatLogStore → ChatLogStore → Type 0
Writes name payload s t =
    IsCoherent t
    × ((k : String) → view t k ≡ (if name == k then returned (dict payload) else view s k))

pub view_of_cached :
    (name : String) (payload : Fields) (s t : ChatLogStore)
    → lookup name t.cache ≡ some payload
    → ((k : String) → (name == k) ≡ false → view t k ≡ view s k)
    → (k : String) → view t k ≡ (if name == k then returned (dict payload) else view s k)
unfolding view
view_of_cached name payload s t p other k = elim (Bool-cases (name == k)) [
  | inr f ↦ rw f (other k f)
  | inl same ↦ rw same (ap (λ j. view t j) (sym ((eq_iff name k).0 same)) ∙ rw p refl)
]

module _ (m : Moment) (name : String) (payload : Fields) (s : ChatLogStore)
    (c : IsCoherentBut (λ k. name == k) s) where
  pub write_named-Writes : Writes name payload s (write_named m name payload s)
  unfolding write_named view
  write_named-Writes =
      let r = remember name payload s in
      let rc = remember-IsCoherentBut name payload s c in
      let t = write_named m name payload s in
      let filed : (k : String)
          → lookup k t.files
            ≡ (if name == k then some (some (dict payload)) else lookup k r.files) =
        λ k. lookup-insert name k (some (dict payload)) r.files in
      let other : (k : String) → (name == k) ≡ false → lookup k t.files ≡ lookup k r.files =
        λ k f. filed k ∙ rw f refl in
      (
        settle name payload t
            (record {
              cached_once = rc.cached_once;
              filed_once = insert-IsDict name (some (dict payload)) r.files rc.filed_once;
              kept = λ k idle waits.
                  rc.kept k idle (sym (contains-discard_other name k r.pending idle) ∙ waits);
              clean = λ k old idle p free.
                  other k idle
                  ∙ rc.clean k old idle p
                      (sym (contains-discard_other name k r.pending idle) ∙ free);
            })
            (lookup-remember name payload s c)
            (λ free. filed name ∙ rw ((eq_iff name name).1 refl) refl),
        view_of_cached name payload s t (lookup-remember name payload s c) (λ k f.
            ap (λ o. over (lookup k r.cache) (content o)) (other k f)
            ∙ view-remember_other name payload s c k f),
      )

  deferred-Writes : Writes name payload s (record (remember name payload s) {
    pending = add_pending name (remember name payload s).pending;
  })
  unfolding view
  deferred-Writes =
      let r = remember name payload s in
      let rc = remember-IsCoherentBut name payload s c in
      let t : ChatLogStore = record r { pending = add_pending name r.pending } in
      (
        settle name payload t
            (record {
              cached_once = rc.cached_once;
              filed_once = rc.filed_once;
              kept = λ k idle waits.
                  rc.kept k idle (sym (contains-add_pending_other name r.pending k idle) ∙ waits);
              clean = λ k old idle p free.
                  rc.clean k old idle p
                    (sym (contains-add_pending_other name r.pending k idle) ∙ free);
            })
            (lookup-remember name payload s c)
            (λ free. absurd (ground (arith, contains-add_pending name r.pending, free))),
        view_of_cached name payload s t (lookup-remember name payload s c)
            (view-remember_other name payload s c),
      )

pub write_coalesced-Writes :
    (m : Moment) (name : String) (payload : Fields) (s : ChatLogStore)
    → IsCoherentBut (λ k. name == k) s
    → Writes name payload s (write_coalesced m name payload s)
unfolding write_coalesced
write_coalesced-Writes m name payload s c =
    let r = remember name payload s in
    elim (Bool-cases (is_recent m.now r.event_flush_interval (lookup name r.last_write_at))) [
      | inl t ↦ rw (t, write_coalesced) (deferred-Writes m name payload s c)
      | inr f ↦
          let again =
            write_named-Writes m name payload r (remember-IsCoherentBut name payload s c) in
          rw (f, write_coalesced)
            (
              again.0,
              λ k. again.1 k ∙ elim (Bool-cases (name == k)) [
                | inl t ↦ rw t refl
                | inr n ↦ rw n (view-remember_other name payload s c k n)
              ],
            )
    ]
