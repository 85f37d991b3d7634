-- ===== src/Bindings/Laws.antt =====
-- What `resolve` of request_bindings.py gives after the operations that bind and complete.
use engineering_flow_platfor.Base.{
  ℕ, ◌+◌, ◌*◌, ◌<◌, max, String, ◌≡◌, refl, sym, ap, ◌∙◌, ◌≢◌, inl, inr, Bool, true, false, Option,
  none, some, arith, eq_iff, if◌then◌else◌, Eq, nat_eq, string_eq, pair_eq, pair_beq_iff,
  Bool-cases, is_empty, Dict, lookup, insert, IsDict, lookup-insert, insert-IsDict, filter_values,
  map_values, if_kept, lookup-filter_values, filter_values-IsDict, lookup-map_values,
  map_values-IsDict,
}
use engineering_flow_platfor.Bindings
use engineering_flow_platfor.Bindings.{
  RequestBinding, Bindings, Request, second, new_binding, is_live, prune_expired, put_task, or_try,
  exact, finish,
}

-- No key stands twice in the three dictionaries.
pub record IsValid (s : Bindings) : Type 0 where
  pub active : IsDict s.active
  pub by_message : IsDict s.by_message
  pub by_task : IsDict s.by_task

prune-IsValid : (now : ℕ) (s : Bindings) → IsValid s → IsValid (prune_expired now s)
unfolding prune_expired
prune-IsValid now s v = record {
  active = filter_values-IsDict (is_live now) s.active v.active;
  by_message = filter_values-IsDict (is_live now) s.by_message v.by_message;
  by_task = filter_values-IsDict (is_live now) s.by_task v.by_task;
}

put_task-IsDict :
    (r : Request) (b : RequestBinding) (d : Dict (String × String) RequestBinding)
    → IsDict d
    → IsDict (put_task r b d)
put_task-IsDict r b d h = elim (Bool-cases (is_empty r.task_id)) [
  | inl t ↦ rw t h
  | inr f ↦ rw f (insert-IsDict (r.opencode_session_id, r.task_id) b d h)
]

pub data Call : Type 0 where
  bind_active : ℕ → Request → Call
  bind_message : ℕ → String → Request → Call
  resolve : ℕ → String → String → String → Call
  resolve_exact : ℕ → String → String → String → Bool → Call
  complete : String → Call
  prune : ℕ → Call

unfoldable pub call : Call → Bindings → Bindings
call (Call.bind_active now r) s = Bindings.bind_active now r s
call (Call.bind_message now m r) s = Bindings.bind_message now m r s
call (Call.resolve now o m t) s = (Bindings.resolve now o m t s).0
call (Call.resolve_exact now o m t c) s = (Bindings.resolve_exact now o m t c s).0
call (Call.complete id) s = Bindings.complete id s
call (prune now) s = prune_expired now s

complete-IsValid : (id : String) (s : Bindings) → IsValid s → IsValid (Bindings.complete id s)
unfolding Bindings.complete
complete-IsValid id s v = record {
  active = map_values-IsDict (finish id) s.active v.active;
  by_message = map_values-IsDict (finish id) s.by_message v.by_message;
  by_task = map_values-IsDict (finish id) s.by_task v.by_task;
}

bind_message-IsValid :
    (now : ℕ) (m : String) (r : Request) (s : Bindings)
    → IsValid s
    → IsValid (Bindings.bind_message now m r s)
unfolding Bindings.bind_message
bind_message-IsValid now m r s v = elim (Bool-cases (is_empty m)) [
  | inl t ↦ rw t v
  | inr f ↦
      let p = prune-IsValid now s v in
      rw f (record {
        active = insert-IsDict r.opencode_session_id (new_binding now r m) _ p.active;
        by_message = insert-IsDict (r.opencode_session_id, m) (new_binding now r m) _ p.by_message;
        by_task = put_task-IsDict r (new_binding now r m) _ p.by_task;
      })
]

resolve_exact-IsValid :
    (now : ℕ) (o m t : String) (c : Bool) (s : Bindings)
    → IsValid s
    → IsValid (Bindings.resolve_exact now o m t c s).0
unfolding Bindings.resolve_exact
resolve_exact-IsValid now o m t true s v = v
resolve_exact-IsValid now o m t false s v = prune-IsValid now s v

-- Every call keeps the three dictionaries free of double keys.
pub call-IsValid : (c : Call) (s : Bindings) → IsValid s → IsValid (call c s)
unfolding call Bindings.bind_active Bindings.resolve
call-IsValid (Call.bind_active now r) s v =
    let p = prune-IsValid now s v in
    record {
      active = insert-IsDict r.opencode_session_id (new_binding now r "") _ p.active;
      by_message = p.by_message;
      by_task = put_task-IsDict r (new_binding now r "") _ p.by_task;
    }
call-IsValid (Call.bind_message now m r) s v = bind_message-IsValid now m r s v
call-IsValid (Call.resolve now o m t) s v = prune-IsValid now s v
call-IsValid (Call.resolve_exact now o m t c) s v = resolve_exact-IsValid now o m t c s v
call-IsValid (Call.complete id) s v = complete-IsValid id s v
call-IsValid (prune now) s v = prune-IsValid now s v

module _ {K : Type 0} ⦃e : Eq K⦄ (id : String) (now : ℕ) where
  -- a live binding that is found after `complete` is of another request
  found_elsewhere :
      (k : K) (d : Dict K RequestBinding) (b : RequestBinding)
      → IsDict d
      → lookup k (filter_values (is_live now) (map_values (finish id) d)) ≡ some b
      → b.request_id ≢ id
  unfolding finish
  found_elsewhere k d b h p = at (lookup k d) (
      sym (ap (if_kept (is_live now)) (lookup-map_values (finish id) k d))
      ∙ sym (
          lookup-filter_values (is_live now) k (map_values (finish id) d)
            (map_values-IsDict (finish id) d h))
      ∙ p)
    where
      at :
          (o : Option RequestBinding)
          → if_kept (is_live now) (elim o [ none ↦ none | some v ↦ some (finish id v) ]) ≡ some b
          → b.request_id ≢ id
      at none q same = ground arith
      at (some v) q same = ground (arith, eq_iff v.request_id id)

if_kept-some :
    (now : ℕ) (o : Option RequestBinding) (b : RequestBinding)
    → if_kept (is_live now) o ≡ some b
    → (o ≡ some b) × (b.completed ≡ false) × (now < b.expires_at)
if_kept-some now none b p = absurd (ground arith)
if_kept-some now (some v) b p = ground arith

module _ {ℓ} (Q : RequestBinding → Type ℓ) where
  -- what holds of a binding wherever it is found holds of the one that is tried first
  or_try-found :
      (x y : Option RequestBinding) (b : RequestBinding)
      → (x ≡ some b → Q b)
      → (y ≡ some b → Q b)
      → or_try x y ≡ some b
      → Q b
  or_try-found none y b f g p = g p
  or_try-found (some v) y b f g p = f p

  if_asked-found :
      (c : Bool) (x : Option RequestBinding) (b : RequestBinding)
      → (x ≡ some b → Q b)
      → (if c then none else x) ≡ some b
      → Q b
  if_asked-found true x b f p = absurd (ground arith)
  if_asked-found false x b f p = f p

-- In a store without double keys, a completed request is not resolved any more: what `resolve` gives
-- afterwards, by message, by task or as the active binding of the session, is a live binding of another
-- request.
pub resolve_after_complete :
    (id : String) (now : ℕ) (o m t : String) (s : Bindings) (b : RequestBinding)
    → IsValid s
    → (Bindings.resolve now o m t (Bindings.complete id s)).1 ≡ some b
    → (b.request_id ≢ id) × (b.completed ≡ false) × (now < b.expires_at)
unfolding Bindings.resolve Bindings.complete exact prune_expired
resolve_after_complete id now o m t s b v p =
    let Other : RequestBinding → Type 0 = λ x. x.request_id ≢ id in
    let kept = if_kept-some now _ b p in
    (
      or_try-found Other _ _ b
          (or_try-found Other _ _ b
            (if_asked-found Other (is_empty m) _ b
              (found_elsewhere id now (o, m) s.by_message b v.by_message))
            (if_asked-found Other (is_empty t) _ b
              (found_elsewhere id now (o, t) s.by_task b v.by_task)))
          (found_elsewhere id now o s.active b v.active) kept.0,
      kept.1,
      kept.2,
    )

new_binding-is_live :
    (now later : ℕ) (m : String) (r : Request)
    → later < now + max 1 r.ttl_seconds * second
    → is_live later (new_binding now r m) ≡ true
unfolding new_binding
new_binding-is_live now later m r live = ground arith

bound_message :
    (now later : ℕ) (m : String) (r : Request) (s : Bindings)
    → IsValid s
    → is_empty m ≡ false
    → later < now + max 1 r.ttl_seconds * second
    → lookup
        (r.opencode_session_id, m)
        (filter_values (is_live later) (
          insert
            (r.opencode_session_id, m)
            (new_binding now r m)
            (filter_values (is_live now) s.by_message)))
      ≡ some (new_binding now r m)
unfolding prune_expired
bound_message now later m r s v full live =
    let key : String × String = (r.opencode_session_id, m) in
    let b = new_binding now r m in
    let d = (prune_expired now s).by_message in
    let fresh = insert-IsDict key b d (prune-IsValid now s v).by_message in
    lookup-filter_values (is_live later) key (insert key b d) fresh
    ∙ rw
        (
          lookup-insert key key b d,
          (pair_beq_iff key key).1 refl,
          new_binding-is_live now later m r live,
        )
        refl

-- In a store without double keys, a message (of an id that is not empty) that was bound resolves to
-- the binding that was made, whatever the task that is asked for, until it expires.
pub resolve-bind_message :
    (now later : ℕ) (m t : String) (r : Request) (s : Bindings)
    → IsValid s
    → is_empty m ≡ false
    → later < now + max 1 r.ttl_seconds * second
    → (Bindings.resolve later r.opencode_session_id m t (Bindings.bind_message now m r s)).1
      ≡ some (new_binding now r m)
unfolding Bindings.resolve Bindings.bind_message exact prune_expired
resolve-bind_message now later m t r s v full live =
    rw (full, bound_message now later m r s v full live, new_binding-is_live now later m r live)
      refl
