-- ===== src/Store/EventStream/Entries.antt =====
-- Entries added to a directory: which of them `read_verified` reads, and in which place.
use temper_ml.Base.{
  nat_eq, List-discrete, list_eq, Bool-cases, is_some, ◌>>=◌, unbind, ok_inj, Result, ok, err, All,
  insert_by, sort_by, Text, text_lt_asym, sort_by-Perm, All-Perm, find, ℕ, ◌<◌, ◌≡◌, refl, ap, ◌∙◌,
  inl, inr, Bool, true, false, some, List, [], ◌∷◌, ◌++◌, ℕ_discrete,
}
use temper_ml.Domain.Projections.{is_sha256_hex}
use temper_ml.Store.EventStream.{
  Directory, event_name, match_event_name, has_json_suffix, lock_name,
}
use temper_ml.Store.EventStream.Names.{
  Numbered, is_temp_name-event_name, not_lock_name, text_lt-event_name,
}
use temper_ml.Store.EventStream.Reading.{
  verify_event, verify_events, is_skipped, event_files, name_lt, read_chain, Chain,
}
use temper_ml.Store.EventStream.Appending.{locked}
use temper_ml.Store.EventStream.Consistency.{Below}

event_files-skipped :
    (d : Directory) (g : Text × Text)
    → is_skipped g.0 ≡ true
    → event_files (d ++ g ∷ []) ≡ event_files d
unfolding event_files
event_files-skipped [] g h = rw h refl
event_files-skipped (f ∷ d) g h = rw (event_files-skipped d g h) refl

pub event_files-snoc :
    (d : Directory) (g : Text × Text) (fs : Directory)
    → is_skipped g.0 ≡ false
    → has_json_suffix g.0 ≡ true
    → event_files d ≡ ok fs
    → event_files (d ++ g ∷ []) ≡ ok (fs ++ g ∷ [])
unfolding event_files
event_files-snoc [] g fs s j h = rw (s, j) (ap (λ x. ok (x ++ g ∷ [])) (ok_inj [] fs h))
event_files-snoc (f ∷ d) g fs s j h = elim (Bool-cases (is_skipped f.0)) [
  | inl e ↦ rw e (event_files-snoc d g fs s j (rw e at h))
  | inr e ↦ elim (Bool-cases (has_json_suffix f.0)) [
    | inl k ↦
        let (gs, hg) = unbind (λ gs. ok (f ∷ gs)) fs (event_files d) (rw (e, k) at h) in
        rw (e, k, event_files-snoc d g gs s j hg.0)
          (ap (λ x. ok (x ++ g ∷ [])) (ok_inj (f ∷ gs) fs hg.1))
    | inr k ↦ cc (rw (e, k) at h)
  ]
]

lock_name-skipped : is_skipped lock_name ≡ true
unfolding is_skipped ℕ_discrete List-discrete
lock_name-skipped = refl

pub read_chain-locked :
    (sha256 : Text → Text) (d : Directory) → read_chain sha256 (locked d) ≡ read_chain sha256 d
unfolding read_chain locked
read_chain-locked sha256 d = elim (Bool-cases (is_some (find lock_name d))) [
  | inl h ↦ rw h refl
  | inr h ↦ rw (h, event_files-skipped d (lock_name, 0 ∷ []) lock_name-skipped) refl
]

module _ {A : Type 0} (lt : A → A → Bool) where
  insert_by-snoc :
      (x g : A) (ys : List A)
      → lt g x ≡ false
      → insert_by lt x (ys ++ g ∷ []) ≡ insert_by lt x ys ++ g ∷ []
  unfolding insert_by
  insert_by-snoc x g [] h = rw h refl
  insert_by-snoc x g (y ∷ ys) h = elim (Bool-cases (lt y x)) [
    | inl e ↦ rw (e, insert_by-snoc x g ys h) refl
    | inr e ↦ rw e refl
  ]

  -- what is below nothing stays at the end
  pub sort_by-snoc :
      (xs : List A) (g : A)
      → All (λ x. lt g x ≡ false) xs
      → sort_by lt (xs ++ g ∷ []) ≡ sort_by lt xs ++ g ∷ []
  unfolding sort_by insert_by
  sort_by-snoc [] g a = refl
  sort_by-snoc (x ∷ xs) g a = rw (sort_by-snoc xs g a.1) (insert_by-snoc x g (sort_by lt xs) a.0)

bind_ok {ℓ} : {E A : Type ℓ} (m : Result E A) → m >>= (λ a. ok a) ≡ m
bind_ok (ok a) = refl
bind_ok (err e) = refl

pub verify_events-snoc :
    (sha256 : Text → Text) (c d : Chain) (fs : Directory) (g : Text × Text)
    → verify_events sha256 c fs ≡ ok d
    → verify_events sha256 c (fs ++ g ∷ []) ≡ verify_event sha256 d g
unfolding verify_events
verify_events-snoc sha256 c d [] g h =
    bind_ok (verify_event sha256 c g) ∙ ap (λ x. verify_event sha256 x g) (ok_inj c d h)
verify_events-snoc sha256 c d (f ∷ fs) g h =
    let (c', hc) = unbind _ d (verify_event sha256 c f) h in
    rw hc.0 (verify_events-snoc sha256 c' d fs g hc.1)

-- A new name comes behind all the names of a smaller number.
after-All :
    (n : ℕ) (value raw : Text) (fs : Directory)
    → Numbered n
    → Below n fs
    → All (λ f. name_lt (event_name n value, raw) f ≡ false) fs
after-All n value raw [] h b = tt
after-All n value raw (f ∷ fs) h b =
    let (p, q) = b.0 in
    (
      text_lt_asym f.0 (event_name n value) (text_lt-event_name f.0 p.0 n p.1 value q.0 q.1 h),
      after-All n value raw fs h b.1,
    )

pub sort_by-event_name :
    (n : ℕ) (value raw : Text) (fs : Directory)
    → Numbered n
    → Below n (sort_by name_lt fs)
    → sort_by name_lt (fs ++ (event_name n value, raw) ∷ [])
      ≡ sort_by name_lt fs ++ (event_name n value, raw) ∷ []
sort_by-event_name n value raw fs h b =
    sort_by-snoc name_lt fs (event_name n value, raw)
      (after-All n value raw fs h (
        All-Perm (λ f. (p : ℕ × Text) × ((match_event_name f.0 ≡ some p) × (p.0 < n)))
          (sort_by-Perm name_lt fs) b))

pub not_skipped :
    (n : ℕ) (value : Text)
    → Numbered n
    → is_sha256_hex value ≡ true
    → is_skipped (event_name n value) ≡ false
unfolding is_skipped
not_skipped n value h v = rw (not_lock_name n value h v, is_temp_name-event_name n value h v) refl
