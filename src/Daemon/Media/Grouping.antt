-- ===== src/Daemon/Media/Grouping.antt =====
-- Each partition is worked on once, with all its folders.
use teslausb_neo.Base.{
  String, ◌≡◌, true, false, ◌&&◌, List, [], ◌∷◌, ◌++◌, ◌==◌, arith, if◌then◌else◌, All, refl,
  eq_iff, eq_of_test, sym,
}
use teslausb_neo.Daemon.Media.{MediaTarget, Groups, add_target, group_targets}

-- The targets of all groups of one partition.
abbrev pub targets_at : String → Groups → List MediaTarget
targets_at p [] = []
targets_at p ((q, xs) ∷ groups) = if q == p then xs ++ targets_at p groups else targets_at p groups

-- The enabled targets of a partition.
abbrev pub wanted : String → List MediaTarget → List MediaTarget
wanted p [] = []
wanted p (x ∷ xs) = if x.enabled && (x.partition == p) then x ∷ wanted p xs else wanted p xs

-- No group has this partition.
abbrev pub Lacks : String → Groups → Type 0
Lacks p = All (λ g. (g.0 == p) ≡ false)

-- No two groups have the same partition.
abbrev pub OnceEach : Groups → Type 0
OnceEach [] = Unit
OnceEach ((p, xs) ∷ groups) = Lacks p groups × OnceEach groups

append_nil : (xs : List MediaTarget) → xs ++ [] ≡ xs
append_nil [] = refl
append_nil (x ∷ xs) = cc (append_nil xs)

append_assoc : (xs ys zs : List MediaTarget) → (xs ++ ys) ++ zs ≡ xs ++ (ys ++ zs)
append_assoc [] ys zs = refl
append_assoc (x ∷ xs) ys zs = cc (append_assoc xs ys zs)

targets_at-Lacks : (p : String) (groups : Groups) → Lacks p groups → targets_at p groups ≡ []
targets_at-Lacks p [] h = refl
targets_at-Lacks p ((q, xs) ∷ groups) (d, h) = rw d (targets_at-Lacks p groups h)

add_target-Lacks :
    (p : String) (x : MediaTarget) (groups : Groups)
    → (x.partition == p) ≡ false
    → Lacks p groups
    → Lacks p (add_target x groups)
unfolding add_target
add_target-Lacks p x [] d h = (d, tt)
add_target-Lacks p x ((q, xs) ∷ groups) d (e, h) = ground (arith, add_target-Lacks p x groups d h)

add_target-OnceEach :
    (x : MediaTarget) (groups : Groups) → OnceEach groups → OnceEach (add_target x groups)
unfolding add_target
add_target-OnceEach x [] h = (tt, tt)
add_target-OnceEach x ((q, xs) ∷ groups) (l, h) =
    ground (arith, add_target-OnceEach x groups h, add_target-Lacks q x groups)

targets_at-add :
    (p : String) (x : MediaTarget) (groups : Groups)
    → OnceEach groups
    → targets_at p (add_target x groups)
      ≡ targets_at p groups ++ (if x.partition == p then x ∷ [] else [])
unfolding add_target
targets_at-add p x [] h = ground arith
targets_at-add p x ((q, xs) ∷ groups) (l, h) = ground (
  arith,
  targets_at-add p x groups h,
  eq_iff x.partition q,
  eq_iff q p,
  at_the_group (eq_of_test q p),
  append_assoc xs (targets_at p groups) (x ∷ []),
  append_nil xs,
  append_nil (targets_at p groups),
  append_nil (xs ++ targets_at p groups),
  append_nil (xs ++ (x ∷ [])),
)
  where
    at_the_group : ((q == p) ≡ true → q ≡ p) → (q == p) ≡ true → targets_at p groups ≡ []
    at_the_group eq e = targets_at-Lacks p groups (rw (eq e) at l)

group_targets-from :
    (p : String) (xs : List MediaTarget) (groups : Groups)
    → OnceEach groups
    → OnceEach (group_targets groups xs)
      × (targets_at p (group_targets groups xs) ≡ targets_at p groups ++ wanted p xs)
unfolding group_targets
group_targets-from p [] groups h = (h, sym (append_nil (targets_at p groups)))
group_targets-from p (x ∷ xs) groups h = ground (
  arith,
  add_target-OnceEach x groups h,
  targets_at-add p x groups h,
  group_targets-from p xs groups h,
  group_targets-from p xs (add_target x groups) (add_target-OnceEach x groups h),
  append_assoc (targets_at p groups) (x ∷ []) (wanted p xs),
  append_nil (targets_at p groups),
)

-- The grouping has each partition at most once, and its groups hold the enabled targets of each
-- partition, in the order of the list.
pub group_targets-wanted :
    (xs : List MediaTarget) (p : String)
    → OnceEach (group_targets [] xs) × (targets_at p (group_targets [] xs) ≡ wanted p xs)
group_targets-wanted xs p = group_targets-from p xs [] tt
