-- ===== src/ChangeSet/Behavior/New.antt =====
-- apps/local-server/src/change_set.rs: which warnings there are.
use synapsegit_lp_studio.ChangeSet.Types.{BlockingWarning, Crates, Files}
use synapsegit_lp_studio.ChangeSet.Behavior.{BehaviorFeature, feature_key, warning_key}
use synapsegit_lp_studio.ChangeSet.Behavior.Warnings.{
  files_features, warning_of, active_behavior_warnings, behavior_features, is_active,
}
use synapsegit_lp_studio.Prelude.{
  ==_iff, ==_refl, Bool, Bool-cases, List, [], any, any_head, any_tail, ap, arith, inl, inr, keep,
  list_eq, map, nat_eq, not, refl, subst, sym, true, ◌&&◌, ◌==◌, ◌↔◌, ◌∙◌, ◌∷◌, ◌≡◌, ◌≢◌,
}
use synapsegit_lp_studio.Prelude.Text.{Text, codes}
use synapsegit_lp_studio.Prelude.Ordered.{contains-collect_new, contains_by, difference_by}

-- The files have the feature; the code's set of features is not asked.
abbrev pub HasFeature : Crates → Files → BehaviorFeature → Type 0
HasFeature crates files feature =
    contains_by feature_key feature (files_features crates files files) ≡ true

keep-keep :
    (p q : BehaviorFeature → Bool) (xs : List BehaviorFeature)
    → keep p (keep q xs) ≡ keep (λ x. q x && p x) xs
unfolding keep
keep-keep p q [] = refl
keep-keep p q (x ∷ xs) = ground (arith, keep-keep p q xs)

-- The warnings of the features that pass a test.
any-map-keep :
    (p : BehaviorFeature → Bool) (z : BlockingWarning) (xs : List BehaviorFeature)
    → contains_by warning_key z (map warning_of (keep p xs)) ≡ true
    → (x : BehaviorFeature) × (contains_by feature_key x xs ≡ true)
      × (p x ≡ true)
      × (warning_key (warning_of x) ≡ warning_key z)
unfolding keep contains_by any
any-map-keep p z [] h = cc
any-map-keep p z (x ∷ xs) h = elim (Bool-cases (p x)) [
  | inr e ↦
      let (y, there, passes, same) = any-map-keep p z xs (ground arith) in
      (y, any_tail (λ u. feature_key u == feature_key y) x xs there, passes, same)
  | inl e ↦ elim (Bool-cases (warning_key (warning_of x) == warning_key z)) [
    | inl same ↦ (
      x,
      any_head (λ u. feature_key u == feature_key x) x xs (==_refl (feature_key x)),
      e,
      (==_iff (warning_key (warning_of x)) (warning_key z)).0 same,
    )
    | inr other ↦
        let (y, there, passes, same) = any-map-keep p z xs (ground arith) in
        (y, any_tail (λ u. feature_key u == feature_key y) x xs there, passes, same)
  ]
]

abbrev head : List Text → Text
head [] = []
head (t ∷ ts) = t

abbrev tail : List Text → List Text
tail [] = []
tail (t ∷ ts) = ts

-- The order tells any two features apart.
feature_key_injective : (f g : BehaviorFeature) → feature_key f ≡ feature_key g → f ≡ g
feature_key_injective f g h =
    ap
      (λ k. record {
        code = head k;
        path = head (tail k);
        destination = head (tail (tail k));
        fingerprint = head (tail (tail (tail k)));
      })
      h

map-keep-contains :
    (p : BehaviorFeature → Bool) (f : BehaviorFeature) (xs : List BehaviorFeature)
    → contains_by feature_key f xs ≡ true
    → p f ≡ true
    → contains_by warning_key (warning_of f) (map warning_of (keep p xs)) ≡ true
unfolding keep contains_by any
map-keep-contains p f [] h passes = cc
map-keep-contains p f (x ∷ xs) h passes = elim (Bool-cases (feature_key x == feature_key f)) [
  | inl same ↦
      let x-is-f = feature_key_injective x f ((==_iff (feature_key x) (feature_key f)).0 same) in
      let passes-x = ap p x-is-f ∙ passes in
      let same-warning = ap (λ u. warning_key (warning_of u)) x-is-f in
      ground (
        arith,
        passes-x,
        same-warning,
        ==_iff (warning_key (warning_of x)) (warning_key (warning_of f)),
      )
  | inr other ↦ ground (arith, map-keep-contains p f xs)
]

warning_key_injective : (v w : BlockingWarning) → warning_key v ≡ warning_key w → v ≡ w
warning_key_injective v w h =
    ap
      (λ k. record {
        code = head k;
        path = head (tail k);
        destination = head (tail (tail k));
        message = head (tail (tail (tail k)));
      })
      h

-- What the code tells from the set is what the list of the features tells.
behavior_features_iff :
    (crates : Crates) (files : Files) (f : BehaviorFeature)
    → contains_by feature_key f (behavior_features crates files)
      ≡ contains_by feature_key f (files_features crates files files)
unfolding behavior_features contains_by any
behavior_features_iff crates files f =
    contains-collect_new feature_key (files_features crates files files) f

-- the test that the code makes on a feature of the proposed files
abbrev is_new_and_active : Crates → Files → BehaviorFeature → Bool
is_new_and_active crates accepted f =
    not (contains_by feature_key f (behavior_features crates accepted)) && is_active f

is_new_and_active_iff :
    (crates : Crates) (accepted : Files) (f : BehaviorFeature)
    → (is_new_and_active crates accepted f ≡ true)
      ↔ ((¬ HasFeature crates accepted f) × (f.code ≢ codes "new_external_origin"))
is_new_and_active_iff crates accepted f = (
  ground
      (arith, behavior_features_iff crates accepted f, ==_iff f.code (codes "new_external_origin")),
  ground
      (arith, behavior_features_iff crates accepted f, ==_iff f.code (codes "new_external_origin")),
)

active_behavior_warnings_lem :
    (crates : Crates) (accepted proposed : Files) (w : BlockingWarning)
    → contains_by warning_key w (active_behavior_warnings crates accepted proposed)
      ≡ contains_by warning_key w (
          map warning_of
            (keep (is_new_and_active crates accepted) (behavior_features crates proposed)))
unfolding active_behavior_warnings difference_by
active_behavior_warnings_lem crates accepted proposed w =
    contains-collect_new warning_key _ w
    ∙ ap (λ xs. contains_by warning_key w (map warning_of xs))
        (keep-keep is_active
          (λ x. not (contains_by feature_key x (behavior_features crates accepted)))
          (behavior_features crates proposed))

-- A blocking warning is there exactly when it is the warning of a feature of the proposed files that
-- is not among the features of the accepted ones and is more than a reference to another origin.
pub active_behavior_warnings_iff :
    (crates : Crates) (accepted proposed : Files) (w : BlockingWarning)
    → (contains_by warning_key w (active_behavior_warnings crates accepted proposed) ≡ true) ↔ (
        (feature : BehaviorFeature) × HasFeature crates proposed feature
        × (¬ HasFeature crates accepted feature)
        × (feature.code ≢ codes "new_external_origin")
        × (warning_of feature ≡ w))
active_behavior_warnings_iff crates accepted proposed w = (found, warned)
  where
    is_new : BehaviorFeature → Bool
    is_new = is_new_and_active crates accepted

    found :
        contains_by warning_key w (active_behavior_warnings crates accepted proposed) ≡ true
        → (feature : BehaviorFeature) × HasFeature crates proposed feature
          × (¬ HasFeature crates accepted feature)
          × (feature.code ≢ codes "new_external_origin")
          × (warning_of feature ≡ w)
    found h =
        let (f, there, passes, same) =
          any-map-keep is_new w (behavior_features crates proposed)
            (sym (active_behavior_warnings_lem crates accepted proposed w) ∙ h) in
        let (fresh, active) = (is_new_and_active_iff crates accepted f).0 passes in
        (
          f,
          sym (behavior_features_iff crates proposed f) ∙ there,
          fresh,
          active,
          warning_key_injective (warning_of f) w same,
        )

    warned :
        ((feature : BehaviorFeature) × HasFeature crates proposed feature
          × (¬ HasFeature crates accepted feature)
          × (feature.code ≢ codes "new_external_origin")
          × (warning_of feature ≡ w))
        → contains_by warning_key w (active_behavior_warnings crates accepted proposed) ≡ true
    warned (f, there, fresh, active, same) =
        active_behavior_warnings_lem crates accepted proposed w
        ∙ subst
            (λ v.
              contains_by warning_key v
                (map warning_of (keep is_new (behavior_features crates proposed)))
              ≡ true)
            same
            (map-keep-contains is_new f (behavior_features crates proposed)
              (behavior_features_iff crates proposed f ∙ there)
              ((is_new_and_active_iff crates accepted f).1 (fresh, active)))
