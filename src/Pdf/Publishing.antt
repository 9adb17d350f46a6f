-- ===== src/Pdf/Publishing.antt =====
-- What `Ensure` leaves on the disk, whatever the operating system, the fetcher and the context
-- answer.
use research_monitor.Base.{
  ℕ, ◌≡◌, refl, sym, ap, ◌∙◌, inl, inr, ◌⊎◌, Bool, true, false, List, [], ◌∷◌, Option, none, some,
  length, take, Bool-cases, Option-cases, arith, if◌then◌else◌,
}
use mathlib.Core.Path.{subst}
use research_monitor.Text.{is_empty}
use research_monitor.Pdf.Key.{PdfSentinel, Key, validate}
use research_monitor.Pdf.Path.{same_path, same_path_refl}
use research_monitor.Pdf.Store.{
  Disk, write_file, remove_file, Download, body_of, fetch_error, World, cache_hit, Ensured, located,
  failure, canonical_path, temp_path, cached, discard, publish, fill, store_body, receive_body,
  ensure_valid, checked_key, ensure,
}
use research_monitor.Pdf.Confined.{IsKey, validate-IsKey, temp-canonical}

-- No file but the two changed.
abbrev Untouched : List (List ℕ) → List (List ℕ) → Disk → Disk → Type 0
Untouched tmp canonical before after =
    (q : List (List ℕ))
    → same_path tmp q ≡ false
    → same_path canonical q ≡ false
    → after q ≡ before q

-- On success the file is not empty, and is the whole body that the fetcher gave or the file that was
-- there; on an error it is what it was.
abbrev pub WholeLaw : Download → List (List ℕ) → Disk → Ensured → Disk → Type 0
WholeLaw fetched canonical before (located path) after =
    (path ≡ canonical)
    × ((body : List ℕ) × (after canonical ≡ some body)
        × (is_empty body ≡ false)
        × ((fetched ≡ body_of body) ⊎ (before canonical ≡ some body)))
WholeLaw fetched canonical before (failure causes) after = after canonical ≡ before canonical

pub record PublishLaw (fetched : Download) (tmp canonical : List (List ℕ)) (before : Disk)
    (out : Ensured) (after : Disk) : Type 0 where
  pub whole : WholeLaw fetched canonical before out after
  pub others : Untouched tmp canonical before after

module _ (w : World) (fetched : Download) (tmp canonical : List (List ℕ))
    (apart : same_path tmp canonical ≡ false) where
  -- A disk that differs from another at the temporary file alone.
  abbrev Scratch : Disk → Disk → Type 0
  Scratch before disk = (q : List (List ℕ)) → same_path tmp q ≡ false → disk q ≡ before q

  write-Scratch :
      (before disk : Disk) (body : List ℕ)
      → Scratch before disk
      → Scratch before (write_file tmp body disk)
  write-Scratch before disk body s q h = rw h (s q h)

  remove-Scratch :
      (before disk : Disk) → Scratch before disk → Scratch before (remove_file tmp disk)
  remove-Scratch before disk s q h = rw h (s q h)

  discard-Scratch : (before disk : Disk) → Scratch before disk → Scratch before (discard w tmp disk)
  discard-Scratch before disk s =
      elim (w.remove_works) as (λ b. Scratch before (if b then remove_file tmp disk else disk)) [
        | true ↦ remove-Scratch before disk s
        | false ↦ s
      ]

  fail-Law :
      (before disk : Disk) (causes : List PdfSentinel)
      → Scratch before disk
      → PublishLaw fetched tmp canonical before (failure causes) disk
  fail-Law before disk causes s = record { whole = s canonical apart; others = λ q h _. s q h }

  publish-Law :
      (before disk : Disk) (body : List ℕ)
      → is_empty body ≡ false
      → fetched ≡ body_of body
      → Scratch before disk
      → PublishLaw fetched tmp canonical before
          (publish w tmp canonical body disk).0
          (publish w tmp canonical body disk).1
  unfolding publish
  publish-Law before disk body full got s = elim (Bool-cases w.rename_works) [
    | inl works ↦ rw works (record {
      whole = (refl, (body, (rw (same_path_refl canonical)), full, inl got));
      others = λ q h k. rw (k, h) (s q h);
    })
    | inr fails ↦
        simp fails (fail-Law before (discard w tmp disk) _ (discard-Scratch before disk s))
  ]

  fill-Law :
      (before disk : Disk) (body : List ℕ) (failed : Option ℕ)
      → is_empty body ≡ false
      → fetched ≡ body_of body
      → Scratch before disk
      → PublishLaw fetched tmp canonical before
          (fill w tmp canonical body disk failed).0
          (fill w tmp canonical body disk failed).1
  unfolding fill
  fill-Law before disk body (some n) full got s =
      let d = write_file tmp (take n body) disk in
      fail-Law before (discard w tmp d) _
        (discard-Scratch before d (write-Scratch before disk (take n body) s))
  fill-Law before disk body none full got s =
      let d = write_file tmp body disk in
      let sd = write-Scratch before disk body s in
      elim (Bool-cases w.close_works) [
        | inl works ↦ rw works (publish-Law before d body full got sd)
        | inr fails ↦ rw fails (fail-Law before (discard w tmp d) _ (discard-Scratch before d sd))
      ]

abbrev pub random_of : Option (List ℕ) → List ℕ
random_of none = []
random_of (some random) = random

-- The temporary file of a call.
abbrev pub scratch_path : World → List (List ℕ) → Key → List (List ℕ)
scratch_path w root key = temp_path root key (random_of w.temp)

module _ (root : List (List ℕ)) (key : Key) (valid : IsKey key) (w : World) (disk : Disk) where
  -- The law for a disk that has not changed.
  refused-Law :
      (fetched : Download) (tmp canonical : List (List ℕ)) (causes : List PdfSentinel)
      → PublishLaw fetched tmp canonical disk (failure causes) disk
  refused-Law fetched tmp canonical causes = record { whole = refl; others = λ q _ _. refl }

  store_body-Law :
      (body : List ℕ) (temp : Option (List ℕ))
      → is_empty body ≡ false
      → let out = store_body w root key body disk temp in
        PublishLaw
          (body_of body)
          (temp_path root key (random_of temp))
          (canonical_path root key)
          disk
          out.0
          out.1
  unfolding store_body
  store_body-Law body none full = refused-Law _ _ _ _
  store_body-Law body (some random) full =
      let tmp = temp_path root key random in
      let apart = temp-canonical root key valid random in
      fill-Law w (body_of body) tmp (canonical_path root key) apart disk (write_file tmp [] disk)
        body w.write_fails_after full refl
        (write-Scratch w (body_of body) tmp (canonical_path root key) apart disk disk []
          (λ q _. refl))

  receive_body-Law :
      (d : Download)
      → let out = receive_body w root key disk d in
        PublishLaw d (scratch_path w root key) (canonical_path root key) disk out.0 out.1
  unfolding receive_body
  receive_body-Law (fetch_error causes) = refused-Law _ _ _ _
  receive_body-Law (body_of body) = elim (Bool-cases (is_empty body)) [
    | inl none_there ↦ simp none_there (refused-Law _ _ _ _)
    | inr full ↦ elim (Bool-cases w.cancelled) [
      | inl stop ↦ simp (full, stop) (refused-Law _ _ _ _)
      | inr go ↦ simp (full, go) (store_body-Law body w.temp full)
    ]
  ]

  cached-Holds :
      (stat_works : Bool) (content : Option (List ℕ)) (size : ℕ)
      → cached stat_works content ≡ some size
      → (body : List ℕ) × (content ≡ some body) × (is_empty body ≡ false)
  cached-Holds false content size h = absurd (ground arith)
  cached-Holds true none size h = absurd (ground arith)
  cached-Holds true (some body) size h = (body, refl, ground arith)

  ensure_valid-Law :
      (hit : Option ℕ)
      → cached w.stat_works (disk (canonical_path root key)) ≡ hit
      → let out = ensure_valid w root key disk hit in
        PublishLaw
          (w.fetch key.url)
          (scratch_path w root key)
          (canonical_path root key)
          disk
          out.0
          out.1
  unfolding ensure_valid
  ensure_valid-Law (some size) h = record {
    whole =
        let (body, there, full) =
          cached-Holds w.stat_works (disk (canonical_path root key)) size h in
        (refl, (body, there, full, inr there));
    others = λ q _ _. refl;
  }
  ensure_valid-Law none h = elim (Bool-cases w.mkdir_works) [
    | inl works ↦ simp works (receive_body-Law (w.fetch key.url))
    | inr fails ↦ simp fails (refused-Law _ _ _ _)
  ]

-- Whatever happens in a call of `Ensure`: if it returns a locator, that is the canonical path of the
-- key, and the file there is not empty and is either the whole body that the fetcher gave for the URL
-- of the key or the file that was there before; if it returns an error, the canonical file is what it
-- was, be it there or not; and no file changes but that and the temporary one.
pub ensure_publishes :
    (w : World) (root : List (List ℕ)) (key : Key) (disk : Disk)
    → let out = ensure w root key disk in
      PublishLaw
        (w.fetch key.url)
        (scratch_path w root key)
        (canonical_path root key)
        disk
        out.0
        out.1
unfolding ensure checked_key
ensure_publishes w root key disk = elim (Option-cases (validate key)) [
  | inl valid ↦ rw valid (
      ensure_valid-Law root key (validate-IsKey key valid) w disk
        (cached w.stat_works (disk (canonical_path root key))) refl)
  | inr (f, invalid) ↦ rw invalid (record { whole = refl; others = λ q _ _. refl })
]

cached-full :
    (stat_works : Bool) (content : Option (List ℕ)) (body : List ℕ)
    → stat_works ≡ true
    → content ≡ some body
    → is_empty body ≡ false
    → cached stat_works content ≡ some (length body)
cached-full stat_works content body works h full = rw (works, h, full)

ensure_cached :
    (w : World) (root : List (List ℕ)) (key : Key) (disk : Disk) (body : List ℕ)
    → validate key ≡ none
    → w.stat_works ≡ true
    → disk (canonical_path root key) ≡ some body
    → is_empty body ≡ false
    → ensure w root key disk
      ≡ (located (canonical_path root key), disk, cache_hit (length body) ∷ [])
unfolding ensure checked_key ensure_valid
ensure_cached w root key disk body valid works there full =
    ap (checked_key w root key disk) valid
    ∙ ap (ensure_valid w root key disk)
        (cached-full w.stat_works (disk (canonical_path root key)) body works there full)

located-valid :
    (w : World) (root : List (List ℕ)) (key : Key) (disk : Disk) (path : List (List ℕ))
    → (ensure w root key disk).0 ≡ located path
    → validate key ≡ none
unfolding ensure checked_key
located-valid w root key disk path h = elim (Option-cases (validate key)) [
  | inl valid ↦ valid
  | inr (f, invalid) ↦ absurd (ground arith)
]

-- After a call that returned a locator, a call for the same key returns the same locator, changes no
-- file and needs neither the fetcher nor the temporary file, as long as `os.Stat` works.
pub ensure_again :
    (w later : World) (root : List (List ℕ)) (key : Key) (disk : Disk) (path : List (List ℕ))
    → (ensure w root key disk).0 ≡ located path
    → later.stat_works ≡ true
    → let after = (ensure w root key disk).1 in
      ((ensure later root key after).0 ≡ located path) × ((ensure later root key after).1 ≡ after)
ensure_again w later root key disk path h works =
    let law = ensure_publishes w root key disk in
    let after = (ensure w root key disk).1 in
    let (same, (body, there, full, _)) =
      subst (λ out. WholeLaw (w.fetch key.url) (canonical_path root key) disk out after) h
        law.whole in
    let again =
      ensure_cached later root key after body (located-valid w root key disk path h) works there
        full in
    ((λ i. (again i).0) ∙ ap located (sym same), (λ i. (again i).1))
