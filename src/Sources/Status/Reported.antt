-- ===== src/Sources/Status/Reported.antt =====
-- A scheduled source never disappears from the report.
use geo_hazard.Base.{
  ℕ, String, ◌≡◌, refl, sym, subst, ◌∙◌, Bool, true, false, some, List, [], ◌∷◌, map, any, arith,
  str_eq, eq_iff, text_before, if◌then◌else◌, Bool-cases, inl, inr, true_ne_false, none_ne_some,
}
use geo_hazard.Base.Query.Order.{any-order_by}
use geo_hazard.Base.Dict.{Dict, lookup}
use geo_hazard.Sources.{SourceSyncState, healthy}
use geo_hazard.Sources.Status.{
  add_all, keys, all_healthy, SourceStatus, ok, degraded, by_source, status_of, assess_sources,
}

any-add_all_kept :
    (s : String) (xs ns : List String)
    → any (str_eq s) ns ≡ true
    → any (str_eq s) (add_all xs ns) ≡ true
unfolding add_all
any-add_all_kept s [] ns h = h
any-add_all_kept s (x ∷ xs) ns h = any-add_all_kept s xs _ (ground (arith, h))

any-add_all_own :
    (s : String) (xs ns : List String)
    → any (str_eq s) xs ≡ true
    → any (str_eq s) (add_all xs ns) ≡ true
unfolding add_all
any-add_all_own s [] ns h = absurd (true_ne_false (sym h))
any-add_all_own s (x ∷ xs) ns h = elim (Bool-cases (str_eq s x)) [
  | inr e ↦ any-add_all_own s xs _ (ground (arith, h, e))
  | inl e ↦ any-add_all_kept s xs _ (
      subst (λ y. any (str_eq s) (if any (str_eq y) ns then ns else y ∷ ns) ≡ true)
        ((eq_iff s x).0 e) (ground (arith, (eq_iff s s).1 refl)))
]

any-keys :
    {V : Type 0} (s : String) (d : Dict V) {v : V}
    → lookup s d ≡ some v
    → any (str_eq s) (keys d) ≡ true
unfolding lookup
any-keys s [] h = absurd (none_ne_some h)
any-keys s ((k, w) ∷ d) h = elim (Bool-cases (str_eq k s)) [
  | inl x ↦ ground (arith, x, eq_iff k s, eq_iff s k)
  | inr x ↦ ground (arith, any-keys s d (rw x at h))
]

healthy_one :
    (f : String → SourceStatus) (s : String) (names : List String)
    → any (str_eq s) names ≡ true
    → all_healthy (map f names) ≡ true
    → (f s).is_healthy ≡ true
healthy_one f s [] m h = absurd (true_ne_false (sym m))
healthy_one f s (n ∷ names) m h = elim (Bool-cases (str_eq s n)) [
  | inl e ↦ subst (λ n. (f n).is_healthy ≡ true) (sym ((eq_iff s n).0 e)) (ground (arith, h))
  | inr e ↦ healthy_one f s names (ground (arith, m, e)) (ground (arith, h))
]

is_ok : (b : Bool) → (if b then ok else degraded) ≡ ok → b ≡ true
is_ok true h = refl
is_ok false h = cc

module _ {C : Type 0} where
  -- Where the report is ok, every scheduled source is healthy, judged by its own interval: one that
  -- has never run, or has no success, is not passed over.
  pub assess_sources-healthy :
      (states : List (SourceSyncState C)) (intervals : Dict ℕ) (now factor max_failures : ℕ)
      (source : String) {interval : ℕ}
      → (assess_sources states intervals now factor max_failures).0 ≡ ok
      → lookup source intervals ≡ some interval
      → healthy now factor max_failures (some interval) (lookup source (by_source states)) ≡ true
  unfolding assess_sources
  assess_sources-healthy states intervals now factor max_failures source h k =
      let listed =
        any-order_by (str_eq source) text_before
          (add_all (keys (by_source states)) (add_all (keys intervals) []))
        ∙ any-add_all_kept source (keys (by_source states)) _
            (any-add_all_own source (keys intervals) [] (any-keys source intervals k)) in
      let found =
        healthy_one (status_of now factor max_failures intervals (by_source states)) source _ listed
          (is_ok _ h) in
      subst (λ i. healthy now factor max_failures i (lookup source (by_source states)) ≡ true) k
        found
