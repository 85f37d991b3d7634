-- ===== src/ChatLog/Ensured.antt =====
-- What reading a log of chatlog_store.py leaves, also where its file cannot be read.
use mathlib.Core.Path.{subst}
use engineering_flow_platfor.Base.{
  String, ◌≡◌, refl, sym, ap, ◌∙◌, inl, inr, false, Option, none, some, eq_iff, if◌then◌else◌, ◌==◌,
  nat_eq, string_eq, pair_eq, Bool-cases, Option-cases, lookup, lookup-erase,
}
use engineering_flow_platfor.Base.Value.{
  Value, null, bool, int, decimal, str, list, dict, Fields, or_else,
}
use engineering_flow_platfor.ChatLog.{
  ChatLogStore, Moment, Outcome, nothing, raised, returned, remember, load, get_named, forget,
}
use engineering_flow_platfor.ChatLog.Coherent.{content, view, IsCoherent}
use engineering_flow_platfor.ChatLog.Written.{
  widen, moved, lookup-moved, moved_other, moved-IsCoherentBut, remember-IsCoherentBut,
  lookup-remember, view-remember_other, settle, Writes, view_of_cached,
}
use engineering_flow_platfor.ChatLog.Entries.{fresh_payload}

-- What `_ensure` takes for the payload, and what it leaves a reader to get.
abbrev pub base : Moment → String → Outcome → Value
base m session_id (returned v) = or_else v (dict (fresh_payload m.time session_id))
base m session_id _ = dict (fresh_payload m.time session_id)

abbrev pub left : Moment → Outcome → Outcome
left m raised = if m.movable then nothing else raised
left m other = other

pub same_view :
    (s t : ChatLogStore) (k : String)
    → lookup k t.cache ≡ lookup k s.cache
    → lookup k t.files ≡ lookup k s.files
    → view t k ≡ view s k
unfolding view
same_view s t k p q = rw (p, q) refl

-- The store stays coherent, and a reader of any name gets what it got.
abbrev pub Reads : ChatLogStore → ChatLogStore → Type 0
Reads s t = IsCoherent t × ((k : String) → view t k ≡ view s k)

pub Reads-of_Writes :
    (name : String) (payload : Fields) (s t : ChatLogStore)
    → view s name ≡ returned (dict payload)
    → Writes name payload s t
    → Reads s t
Reads-of_Writes name payload s t had w = (
  w.0,
  λ k. w.1 k ∙ elim (Bool-cases (name == k)) [
    | inr f ↦ rw f refl
    | inl same ↦ rw same (sym had ∙ ap (view s) ((eq_iff name k).0 same))
  ],
)

pub filed_view :
    (name : String) (s : ChatLogStore) (o : Option (Option Value))
    → lookup name s.cache ≡ none
    → lookup name s.files ≡ o
    → view s name ≡ content o
unfolding view
filed_view name s o p q = rw (p, q) refl

module _ (name : String) (s : ChatLogStore) (c : IsCoherent s) where
  pub cached_view :
      (payload : Fields)
      → lookup name s.cache ≡ some payload
      → view s name ≡ returned (dict payload)
  unfolding view
  cached_view payload p = rw p refl

  cached-Reads :
      (payload : Fields)
      → lookup name s.cache ≡ some payload
      → Reads s (moved name payload s (widen (λ k. name == k) s c))
  cached-Reads payload p =
      let but = widen (λ k. name == k) s c in
      let t = moved name payload s but in
      let now_there : lookup name t.cache ≡ some payload =
        lookup-moved name payload s but name ∙ rw ((eq_iff name name).1 refl) refl in
      Reads-of_Writes name payload s t (cached_view payload p) (
        settle name payload t (moved-IsCoherentBut name payload s but) now_there
            (λ free. c.clean name payload refl p free),
        view_of_cached name payload s t now_there
            (λ k f. same_view s t k (moved_other name payload s but k f) refl),
      )

  loaded-Reads :
      (payload : Fields)
      → lookup name s.cache ≡ none
      → lookup name s.files ≡ some (some (dict payload))
      → Reads s (remember name payload s)
  unfolding remember
  loaded-Reads payload p q =
      let but = widen (λ k. name == k) s c in
      let t = remember name payload s in
      Reads-of_Writes name payload s t (filed_view name s _ p q) (
        settle name payload t (remember-IsCoherentBut name payload s but)
            (lookup-remember name payload s but) (λ free. q),
        view_of_cached name payload s t (lookup-remember name payload s but)
            (view-remember_other name payload s but),
      )

  abbrev pub Got : ChatLogStore × Outcome → Type 0
  Got g = Reads s g.0 × (g.1 ≡ view s name)

  load-Got :
      (o : Option (Option Value))
      → lookup name s.cache ≡ none
      → lookup name s.files ≡ o
      → Got (load name o s)
  load-Got none p q = ((c, λ k. refl), sym (filed_view name s none p q))
  load-Got (some none) p q = ((c, λ k. refl), sym (filed_view name s (some none) p q))
  load-Got (some (some (dict payload))) p q =
      (loaded-Reads payload p q, sym (filed_view name s (some (some (dict payload))) p q))
  load-Got (some (some null)) p q = ((c, λ k. refl), sym (filed_view name s (some (some null)) p q))
  load-Got (some (some (bool b))) p q =
      ((c, λ k. refl), sym (filed_view name s (some (some (bool b))) p q))
  load-Got (some (some (int n))) p q =
      ((c, λ k. refl), sym (filed_view name s (some (some (int n))) p q))
  load-Got (some (some (decimal n e))) p q =
      ((c, λ k. refl), sym (filed_view name s (some (some (decimal n e))) p q))
  load-Got (some (some (str t))) p q =
      ((c, λ k. refl), sym (filed_view name s (some (some (str t))) p q))
  load-Got (some (some (list xs))) p q =
      ((c, λ k. refl), sym (filed_view name s (some (some (list xs))) p q))

  get_named_cached :
      (payload : Fields)
      → lookup name s.cache ≡ some payload
      → get_named name s
        ≡ (moved name payload s (widen (λ k. name == k) s c), returned (dict payload))
  unfolding get_named
  get_named_cached payload p = rw (p, get_named) refl

  get_named_loaded :
      lookup name s.cache ≡ none → get_named name s ≡ load name (lookup name s.files) s
  unfolding get_named
  get_named_loaded p = rw (p, get_named) refl

  -- Reading leaves what a reader gets, and gives it.
  pub get_named-Got : Got (get_named name s)
  get_named-Got = elim (Option-cases (lookup name s.cache)) [
    | inl p ↦ subst Got (sym (get_named_loaded p)) (load-Got (lookup name s.files) p refl)
    | inr (payload, p) ↦
        subst Got (sym (get_named_cached payload p))
          (cached-Reads payload p, sym (cached_view payload p))
  ]

  pub forgotten : lookup name (forget name s).cache ≡ none
  unfolding forget
  forgotten = lookup-erase name name s.cache c.cached_once ∙ rw ((eq_iff name name).1 refl) refl

  pub forgotten_other :
      (k : String) → (name == k) ≡ false → lookup k (forget name s).cache ≡ lookup k s.cache
  unfolding forget
  forgotten_other k f = lookup-erase name k s.cache c.cached_once ∙ rw f refl
