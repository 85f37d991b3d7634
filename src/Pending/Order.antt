-- ===== src/Pending/Order.antt =====
-- The order of the pending permissions in pending_input.py: newest last, evicted from the front.
use engineering_flow_platfor.Base.{
  ℕ, ◌≤◌, String, ◌≡◌, refl, inl, inr, none, some, [], ◌∷◌, ◌++◌, arith, eq_iff, ltb, if◌then◌else◌,
  ◌==◌, nat_eq, string_eq, pair_eq, Bool-cases, length, Dict, lookup, insert, erase, IsDict,
  lookup-insert, lookup-erase, insert-IsDict, erase-IsDict,
}
use engineering_flow_platfor.Pending.{PendingPermission, move_to_end, evict}

abbrev pub Entries : Type 0
Entries = Dict String PendingPermission

module _ (k : String) (e : PendingPermission) where
  pub lookup-snoc :
      (j : String) (d : Entries)
      → lookup k d ≡ none
      → lookup j (d ++ (k, e) ∷ []) ≡ (if k == j then some e else lookup j d)
  unfolding lookup
  lookup-snoc j [] h = refl
  lookup-snoc j ((i, w) ∷ d) h = ground (arith, eq_iff i j, eq_iff i k, eq_iff k j, lookup-snoc j d)

  pub snoc-IsDict : (d : Entries) → lookup k d ≡ none → IsDict d → IsDict (d ++ (k, e) ∷ [])
  unfolding lookup
  snoc-IsDict [] h dict = (refl, tt)
  snoc-IsDict ((i, w) ∷ d) h dict =
      ground (arith, eq_iff i k, eq_iff k i, lookup-snoc i d, snoc-IsDict d)

  pub lookup-erase_self : (d : Entries) → IsDict d → lookup k (erase k d) ≡ none
  lookup-erase_self d dict = ground (arith, lookup-erase k k d dict, eq_iff k k)

  pub lookup-insert_self : (d : Entries) → lookup k (insert k e d) ≡ some e
  lookup-insert_self d = ground (arith, lookup-insert k k e d, eq_iff k k)

  pub move-insert :
      (d : Entries) → move_to_end k (insert k e d) ≡ erase k (insert k e d) ++ (k, e) ∷ []
  unfolding move_to_end
  move-insert d = rw (lookup-insert_self d)

  -- what the newest entry leaves to be read
  pub lookup-move :
      (j : String) (d : Entries)
      → IsDict d
      → lookup j (move_to_end k (insert k e d)) ≡ (if k == j then some e else lookup j d)
  lookup-move j d dict = rw move-insert (
      ground (
        arith,
        lookup-snoc j (erase k (insert k e d)),
        lookup-erase_self (insert k e d) (insert-IsDict k e d dict),
        lookup-erase k j (insert k e d) (insert-IsDict k e d dict),
        lookup-insert k j e d,
      ))

  pub move-IsDict : (d : Entries) → IsDict d → IsDict (move_to_end k (insert k e d))
  move-IsDict d dict = rw move-insert (
      snoc-IsDict (erase k (insert k e d))
        (lookup-erase_self (insert k e d) (insert-IsDict k e d dict))
        (erase-IsDict k (insert k e d) (insert-IsDict k e d dict)))

module _ (m : ℕ) where
  pub length-evict : (d : Entries) → length (evict m d) ≤ m
  unfolding evict
  length-evict [] = omega arith
  length-evict (x ∷ d) = ground (arith, length-evict d)

  pub evict-IsDict : (d : Entries) → IsDict d → IsDict (evict m d)
  unfolding evict
  evict-IsDict [] dict = tt
  evict-IsDict ((i, w) ∷ d) dict = elim (Bool-cases (ltb m (length ((i, w) ∷ d)))) [
    | inl t ↦ rw t (evict-IsDict d dict.1)
    | inr f ↦ rw f dict
  ]

  pub lookup-evict-some :
      (j : String) (d : Entries) (v : PendingPermission)
      → IsDict d
      → lookup j (evict m d) ≡ some v
      → lookup j d ≡ some v
  unfolding evict lookup
  lookup-evict-some j [] v dict h = h
  lookup-evict-some j ((i, w) ∷ d) v dict h =
      ground (arith, eq_iff i j, lookup-evict-some j d v dict.1)

  -- The newest entry is never evicted.
  pub lookup-evict_newest :
      (k : String) (e : PendingPermission) (d : Entries)
      → 1 ≤ m
      → lookup k d ≡ none
      → lookup k (evict m (d ++ (k, e) ∷ [])) ≡ some e
  unfolding evict lookup
  lookup-evict_newest k e [] h absent = ground (arith, eq_iff k k)
  lookup-evict_newest k e ((i, w) ∷ d) h absent =
      ground (arith, eq_iff i k, lookup-evict_newest k e d h, lookup-snoc k e k d, eq_iff k k)
