-- ===== src/Pending/Returned.antt =====
-- pending_input.py: a claim that is given back.
use text.Mathlib.TextPositions.{eq_refl}
use engineering_flow_platfor.Base.{
  String, ◌≡◌, refl, sym, ap, ◌∙◌, ◌≢◌, inl, inr, Bool, true, false, not, ◌&&◌, Option, none, some,
  arith, eq_iff, if◌then◌else◌, ◌==◌, nat_eq, string_eq, pair_eq, Bool-cases, is_empty, Dict,
  lookup, insert, IsDict, lookup-insert, lookup-erase, insert_self, insert-insert,
}
use engineering_flow_platfor.Pending
use engineering_flow_platfor.Pending.{
  PendingPermission, PendingInput, claim_at, clear_at, release_at, set_claimed,
}

-- The entry waits for an answer that nobody is giving.
abbrev pub IsFree : String → PendingPermission → PendingInput → Type 0
IsFree k e s = (lookup k s.pending ≡ some e) × (e.claimed ≡ false)

pub claim_free :
    (k : String) (e : PendingPermission) (s : PendingInput)
    → IsFree k e s
    → Pending.claim k e.permission_id s ≡ (set_claimed true k e s, true)
unfolding Pending.claim claim_at
claim_free k e s (found, free) = rw (found, claim_at, eq_refl, free) refl

pub claim_refused :
    (k : String) (e : PendingPermission) (s : PendingInput)
    → lookup k s.pending ≡ some e
    → e.claimed ≡ true
    → Pending.claim k e.permission_id s ≡ (s, false)
unfolding Pending.claim claim_at
claim_refused k e s found held = rw (found, claim_at, eq_refl, held) refl

-- Giving back what was claimed leaves the store as it was.
pub release-claim :
    (k : String) (e : PendingPermission) (s : PendingInput)
    → IsFree k e s
    → Pending.release k e.permission_id (set_claimed true k e s) ≡ s
unfolding Pending.release release_at set_claimed
release-claim k e s (found, free) =
    rw
      (
        lookup-insert k k (record e { claimed = true }) s.pending,
        release_at,
        eq_refl,
        eq_refl,
        insert-insert,
      )
      (ap (λ (d : Dict String PendingPermission). record s { pending = d })
        (ap (λ (b : Bool). insert k (record e { claimed = b }) s.pending) (sym free)
          ∙ insert_self k e s.pending found))

pub lookup-set_claimed :
    (b : Bool) (k j : String) (e : PendingPermission) (s : PendingInput)
    → lookup j (set_claimed b k e s).pending
      ≡ (if k == j then some (record e { claimed = b }) else lookup j s.pending)
unfolding set_claimed
lookup-set_claimed b k j e s = lookup-insert k j (record e { claimed = b }) s.pending

-- Releasing or clearing a session's permission does not touch another session's.
pub release_elsewhere :
    (k j p : String) (s : PendingInput)
    → k ≢ j
    → lookup j (Pending.release k p s).pending ≡ lookup j s.pending
unfolding Pending.release release_at
release_elsewhere k j p s other = at (lookup k s.pending)
  where
    at : (o : Option PendingPermission) → lookup j (release_at k p o s).pending ≡ lookup j s.pending
    at none = refl
    at (some e) = elim (Bool-cases (e.permission_id == p)) [
      | inl t ↦ rw (t, lookup-set_claimed false k j e s) (ground (arith, eq_iff k j))
      | inr f ↦ rw f refl
    ]

pub clear_elsewhere :
    (k j p : String) (s : PendingInput)
    → IsDict s.pending
    → k ≢ j
    → lookup j (Pending.clear k p s).pending ≡ lookup j s.pending
unfolding Pending.clear clear_at
clear_elsewhere k j p s once other = at (lookup k s.pending)
  where
    at : (o : Option PendingPermission) → lookup j (clear_at k p o s).pending ≡ lookup j s.pending
    at none = refl
    at (some e) = elim (Bool-cases (not (is_empty p) && not (e.permission_id == p))) [
      | inl t ↦ rw t refl
      | inr f ↦ rw (f, lookup-erase k j s.pending once) (ground (arith, eq_iff k j))
    ]
