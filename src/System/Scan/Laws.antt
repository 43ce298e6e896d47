-- ===== src/System/Scan/Laws.antt =====
-- What a scan warns about, and which repositories it asks for.
use homelab_api.Base.{
  Text, ◌==◌, ==_iff, ==_sound, ==_refl, Bool, true, false, List, [], ◌∷◌, ◌++◌, map, ◌≡◌, ◌≢◌, ◌↔◌,
  ◌⊎◌, refl, sym, ap, ◌∙◌, subst, arith, All-append, All_of_In, In, In-append_left, In-append_right,
  In-append_cases, Distinct, Bool-cases, inl, inr,
}
use homelab_api.Base.Dict.{Dict, insert, flag, flag-insert, keys, insert-Distinct}
use homelab_api.Adapters.Synology.{DsmContainer}
use homelab_api.System.Images.{ImageSource, split_image_tag, is_version_tag, resolve_source}
use homelab_api.System.Scan.{ImageWarning, add_repo, should_warn, scan_containers}

-- The images that a log warns about.
abbrev pub images : List ImageWarning → List Text
images log = map (λ (w : ImageWarning). w.image) log

-- The warnings logged while the images warned about go from `before` to `after`: they are about
-- different images, none of them warned about before, and `after` has exactly those besides the
-- ones before.
pub record IsFreshLog (before : Dict Bool) (log : List ImageWarning) (after : Dict Bool)
    : Type 0 where
  pub fresh : (j : Text) → In j (images log) → flag j before ≡ false
  pub distinct : Distinct (images log)
  pub recorded : (j : Text) → (flag j after ≡ true) ↔ ((flag j before ≡ true) ⊎ In j (images log))

pub IsFreshLog-nil : (warned : Dict Bool) → IsFreshLog warned [] warned
IsFreshLog-nil warned = record {
  fresh = λ j i. absurd i;
  distinct = tt;
  recorded = λ j. (λ h. inl h, λ h. elim h [ inl e ↦ e | inr i ↦ absurd i ]);
}

pub images-append :
    (first later : List ImageWarning) → images (first ++ later) ≡ images first ++ images later
images-append [] later = refl
images-append (w ∷ first) later = ap (λ l. w.image ∷ l) (images-append first later)

Distinct-append :
    (xs ys : List Text)
    → Distinct xs
    → Distinct ys
    → ((j : Text) → In j xs → In j ys → ⊥)
    → Distinct (xs ++ ys)
Distinct-append [] ys d e apart = e
Distinct-append (x ∷ xs) ys (new, d) e apart = (
  All-append (λ j. x ≢ j) xs ys new
      (All_of_In (λ j. x ≢ j) ys
        λ j i same. apart x (inl refl) (subst (λ k. In k ys) (sym same) i)),
  Distinct-append xs ys d e λ j i k. apart j (inr i) k,
)

-- One log after another.
pub IsFreshLog-append :
    (a b c : Dict Bool) (first later : List ImageWarning)
    → IsFreshLog a first b
    → IsFreshLog b later c
    → IsFreshLog a (first ++ later) c
IsFreshLog-append a b c first later p q = record {
  fresh = λ j i. elim (In-append_cases j (images first) (images later) (parts j i)) [
    | inl x ↦ p.fresh j x
    | inr y ↦ before j (q.fresh j y)
  ];
  distinct = subst Distinct (sym (images-append first later)) (
      Distinct-append (images first) (images later) p.distinct q.distinct
        λ j i k. let e = (p.recorded j).1 (inr i) in let f = q.fresh j k in cc);
  recorded = λ j. (
    λ h. elim ((q.recorded j).0 h) [
      | inr y ↦ inr (whole j (In-append_right j (images first) (images later) y))
      | inl e ↦ elim ((p.recorded j).0 e) [
        | inl f ↦ inl f
        | inr x ↦ inr (whole j (In-append_left j (images first) (images later) x))
      ]
    ],
    λ h. (q.recorded j).1 (elim h [
      | inl e ↦ inl ((p.recorded j).1 (inl e))
      | inr i ↦ elim (In-append_cases j (images first) (images later) (parts j i)) [
        | inl x ↦ inl ((p.recorded j).1 (inr x))
        | inr y ↦ inr y
      ]
    ]),
  );
}
  where
    parts : (j : Text) → In j (images (first ++ later)) → In j (images first ++ images later)
    parts j i = subst (In j) (images-append first later) i

    whole : (j : Text) → In j (images first ++ images later) → In j (images (first ++ later))
    whole j i = subst (In j) (sym (images-append first later)) i

    before : (j : Text) → flag j b ≡ false → flag j a ≡ false
    before j f = elim (Bool-cases (flag j a)) [
      | inr n ↦ n
      | inl y ↦ let e = (p.recorded j).1 (inl y) in cc
    ]

-- One warning, which is recorded.
IsFreshLog-warn :
    (warned : Dict Bool) (name image : Text)
    → flag image warned ≡ false
    → IsFreshLog warned (record { container = name; image = image } ∷ []) (insert image true warned)
IsFreshLog-warn warned name image f = record {
  fresh = λ j i. elim i [ inl e ↦ rw (← e) f | inr n ↦ absurd n ];
  distinct = (tt, tt);
  recorded = λ j. elim (Bool-cases (image == j)) [
    | inl y ↦
        (λ h. inr (inl (==_sound image j y)), λ h. flag-insert image j true warned ∙ rw y refl)
    | inr n ↦ (
      λ h. inl (ground (arith, flag-insert image j true warned)),
      λ h. elim h [
        | inl e ↦ ground (arith, flag-insert image j true warned)
        | inr (inl e) ↦ let y = subst (λ k. (image == k) ≡ true) e (==_refl image) in cc
        | inr (inr x) ↦ absurd x
      ],
    )
  ];
}

not_warned :
    (warned : Dict Bool) (src : ImageSource) (image : Text)
    → should_warn src image warned ≡ true
    → flag image warned ≡ false
unfolding should_warn
not_warned warned src image loud = ground arith

warned_before :
    (warned : Dict Bool) (src : ImageSource) (image : Text)
    → should_warn src image warned ≡ false
    → src.repo ≡ []
    → flag image warned ≡ true
unfolding should_warn
warned_before warned src image quiet unsourced = ground (arith, ==_iff src.repo [])

module _ (sources : Dict ImageSource) where
  -- A container with a version tag and without a release source.
  abbrev pub IsUnsourced : DsmContainer → Type 0
  IsUnsourced c =
      (is_version_tag (split_image_tag c.image).1 ≡ true)
      × ((resolve_source sources (split_image_tag c.image).0).repo ≡ [])

  -- A scan warns about different images, none of them warned about before, and records them.
  pub scan_containers-IsFreshLog :
      (cs : List (Text × DsmContainer)) (repos : Dict Text) (warned : Dict Bool)
      → let scan = scan_containers sources cs repos warned in
        IsFreshLog warned scan.log scan.warned_images
  unfolding scan_containers
  scan_containers-IsFreshLog [] repos warned = IsFreshLog-nil warned
  scan_containers-IsFreshLog ((device, c) ∷ cs) repos warned =
      let image = (split_image_tag c.image).0 in
      let src = resolve_source sources image in
      elim (Bool-cases (is_version_tag ((split_image_tag c.image).1))) [
        | inr n ↦ rw (n, scan_containers) (scan_containers-IsFreshLog cs repos warned)
        | inl y ↦ elim (Bool-cases (should_warn src image warned)) [
          | inr quiet ↦
              rw (y, quiet, scan_containers)
                (scan_containers-IsFreshLog cs (add_repo src repos) warned)
          | inl loud ↦
              rw (y, loud, scan_containers)
                (IsFreshLog-append warned (insert image true warned) _
                  (record { container = c.name; image = image } ∷ []) _
                  (IsFreshLog-warn warned c.name image (not_warned warned src image loud))
                  (scan_containers-IsFreshLog cs (add_repo src repos) (insert image true warned)))
        ]
      ]

  recorded_first :
      (d : Text) (c : DsmContainer) (cs : List (Text × DsmContainer)) (repos : Dict Text)
      (warned : Dict Bool)
      → IsUnsourced c
      → flag
          (split_image_tag c.image).0
          (scan_containers sources ((d, c) ∷ cs) repos warned).warned_images
        ≡ true
  unfolding scan_containers
  recorded_first d c cs repos warned (version, unsourced) =
      let image = (split_image_tag c.image).0 in
      let src = resolve_source sources image in
      elim (Bool-cases (should_warn src image warned)) [
        | inr quiet ↦
            rw (version, quiet, scan_containers)
              (((scan_containers-IsFreshLog cs (add_repo src repos) warned).recorded image).1
                (inl (warned_before warned src image quiet unsourced)))
        | inl loud ↦
            rw (version, loud, scan_containers)
              (((scan_containers-IsFreshLog cs (add_repo src repos)
                    (insert image true warned)).recorded
                  image).1
                (inl (flag-insert image image true warned ∙ rw (==_refl image) refl)))
      ]

  -- Every image without a source that a scan meets has been warned about.
  pub scan_containers-recorded :
      (cs : List (Text × DsmContainer)) (repos : Dict Text) (warned : Dict Bool) (device : Text)
      (c : DsmContainer)
      → In (device, c) cs
      → IsUnsourced c
      → flag (split_image_tag c.image).0 (scan_containers sources cs repos warned).warned_images
        ≡ true
  unfolding scan_containers
  scan_containers-recorded [] repos warned device c i u = absurd i
  scan_containers-recorded ((d, x) ∷ cs) repos warned device c (inl e) u =
      let same : x ≡ c = ap (λ (p : Text × DsmContainer). p.1) e in
      subst
        (λ (y : DsmContainer).
          flag (split_image_tag y.image).0
            (scan_containers sources ((d, x) ∷ cs) repos warned).warned_images
          ≡ true)
        same (recorded_first d x cs repos warned (subst IsUnsourced (sym same) u))
  scan_containers-recorded ((d, x) ∷ cs) repos warned device c (inr i) u =
      let src = resolve_source sources ((split_image_tag x.image).0) in
      elim (Bool-cases (is_version_tag ((split_image_tag x.image).1))) [
        | inr n ↦ rw (n, scan_containers) (scan_containers-recorded cs repos warned device c i u)
        | inl y ↦
            rw (y, scan_containers)
              (scan_containers-recorded cs (add_repo src repos) _ device c i u)
      ]

  add_repo-Distinct :
      (src : ImageSource) (repos : Dict Text)
      → Distinct (keys repos)
      → Distinct (keys (add_repo src repos))
  unfolding add_repo
  add_repo-Distinct src repos h = elim (Bool-cases (src.repo == [])) [
    | inl y ↦ rw (y, add_repo) h
    | inr n ↦ rw (n, add_repo) (insert-Distinct src.repo src.api_base repos h)
  ]

  -- The repositories that a scan asks for differ.
  pub scan_containers-Distinct :
      (cs : List (Text × DsmContainer)) (repos : Dict Text) (warned : Dict Bool)
      → Distinct (keys repos)
      → Distinct (keys (scan_containers sources cs repos warned).repos)
  unfolding scan_containers
  scan_containers-Distinct [] repos warned h = h
  scan_containers-Distinct ((device, c) ∷ cs) repos warned h =
      let src = resolve_source sources ((split_image_tag c.image).0) in
      elim (Bool-cases (is_version_tag ((split_image_tag c.image).1))) [
        | inr n ↦ rw (n, scan_containers) (scan_containers-Distinct cs repos warned h)
        | inl y ↦
            rw (y, scan_containers)
              (scan_containers-Distinct cs (add_repo src repos) _ (add_repo-Distinct src repos h))
      ]
