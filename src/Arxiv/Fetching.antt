-- ===== src/Arxiv/Fetching.antt =====
-- What a fetch returns, keeps and schedules.
use mathlib.Core.List.{append_assoc, append-nil}
use research_monitor.Base.{
  ℕ, suc, ◌+◌, ◌≤◌, ◌<◌, ◌≡◌, refl, ap, ◌∙◌, not, Bool, true, false, String, List, [], ◌∷◌, ◌++◌,
  map, any, All, length, length-append, count_if, str_eq, arith, if◌then◌else◌, sym,
}
use research_monitor.Sql.{Table}
use research_monitor.Paper.{Entry}
use research_monitor.Paper.Catalogue.{
  Row, ListCodec, Answer, value, not_found, catalogue_unavailable, clash, save,
}
use research_monitor.Paper.Keys.{entry_key, Unused, new_row, SaveLaw, KeyLaw, save_lem, save_key}
use research_monitor.Arxiv.{
  SavedEntry, Loop, saved_all, aborted, flag, with_result, continue, save_all,
}

-- The uuids from the k-th on are fresh: no row has one, and they differ from each other.
pub record AreFresh (uuids : ℕ → String) (k : ℕ) (rows : List Row) : Type 0 where
  pub unused : (i : ℕ) → k ≤ i → Unused (uuids i) rows
  pub apart : (i j : ℕ) → i < j → str_eq (uuids i) (uuids j) ≡ false

-- Rows are only ever added, at the end.
abbrev pub Extends : List Row → List Row → Type 0
Extends before after = (added : List Row) × (after ≡ before ++ added)

any-left : (p : Row → Bool) (xs ys : List Row) → any p xs ≡ true → any p (xs ++ ys) ≡ true
any-left p [] ys h = absurd (ground arith)
any-left p (x ∷ xs) ys h = ground (arith, any-left p xs ys)

any-not_left : (p : Row → Bool) (xs ys : List Row) → any p (xs ++ ys) ≡ false → any p xs ≡ false
any-not_left p [] ys h = refl
any-not_left p (x ∷ xs) ys h = ground (arith, any-not_left p xs ys)

Unused-last :
    (uuid : String) (rows : List Row) (m : Row)
    → Unused uuid rows
    → str_eq m.id uuid ≡ false
    → Unused uuid (rows ++ m ∷ [])
Unused-last uuid [] m h k = ground arith
Unused-last uuid (r ∷ rows) m h k = ground (arith, Unused-last uuid rows m)

-- The key of the entry stands in a row afterwards, and one that is new stood in none before.
pub record Kept (before after : List Row) (r : SavedEntry) : Type 0 where
  pub stands : any (entry_key r.entry) after ≡ true
  pub was_absent : r.is_new ≡ true → any (entry_key r.entry) before ≡ false

-- What the loop does when it saves all entries.
pub record Saved (before after : List Row) (es : List Entry) (rs : List SavedEntry) : Type 0 where
  pub in_order : map (λ (r : SavedEntry). r.entry) rs ≡ es
  pub grows : length after ≡ length before + count_if flag rs
  pub kept : All (Kept before after) rs
  pub added : List Row
  pub extends : after ≡ before ++ added

abbrev pub LoopLaw : List Row → List Entry → Loop → List Row → Type 0
LoopLaw before es (saved_all rs) after = Saved before after es rs
LoopLaw before es (aborted e) after = Extends before after

Kept-earlier :
    (before mid after : List Row) (added : List Row)
    → mid ≡ before ++ added
    → (rs : List SavedEntry) → All (Kept mid after) rs
    → All (Kept before after) rs
Kept-earlier before mid after added same [] h = tt
Kept-earlier before mid after added same (r ∷ rs) (k, ks) = (
  record {
    stands = k.stands;
    was_absent = λ n. any-not_left (entry_key r.entry) before added (rw (← same) (k.was_absent n));
  },
  Kept-earlier before mid after added same rs ks,
)

extends_twice :
    {mid : List Row} (before xs ys : List Row)
    → mid ≡ before ++ xs
    → mid ++ ys ≡ before ++ (xs ++ ys)
extends_twice before xs ys h = rw h (append_assoc before xs ys)

grown_length :
    (is_new : Bool) (before mid after added : List Row) (n : ℕ)
    → mid ≡ before ++ added
    → length added ≡ (if is_new then 1 else 0)
    → length after ≡ length mid + n
    → length after ≡ length before + (if is_new then suc n else n)
grown_length is_new before mid after added n h size grows =
    let l : length mid ≡ length before + length added = ap length h ∙ length-append before added in
    ground arith

module _ (t : Table Row clash) (codec : ListCodec) (uuids : ℕ → String) (stamps : ℕ → ℕ) where
  open t use {Db, rows}

  -- One save: how many rows it adds, and that the uuids after it stay fresh.
  pub record Grown (k : ℕ) (e : Entry) (before after : List Row) (is_new : Bool) : Type 0 where
    pub added : List Row
    pub extends : after ≡ before ++ added
    pub size : length added ≡ (if is_new then 1 else 0)
    pub fresh : AreFresh uuids (suc k) after
    pub stands : any (entry_key e) after ≡ true
    pub was : any (entry_key e) before ≡ not is_new

  save-Grown :
      (k : ℕ) (e : Entry) (a c : String) (before after : List Row) (is_new : Bool)
      → AreFresh uuids k before
      → SaveLaw (new_row (uuids k) (stamps k) a c e) before (value is_new) after
      → KeyLaw t codec (uuids k) (stamps k) e before (value is_new) after
      → Grown k e before after is_new
  save-Grown k e a c before after true fresh (same, _) (was, stands) =
      let m = new_row (uuids k) (stamps k) a c e in
      record {
        added = m ∷ [];
        extends = same;
        size = refl;
        fresh = record {
          unused = λ i h. rw same (
              Unused-last (uuids i) before m (fresh.unused i (omega arith))
                (fresh.apart k i (omega arith)));
          apart = fresh.apart;
        };
        stands = stands;
        was = was;
      }
  save-Grown k e a c before after false fresh (same, _) (was, stands) = record {
    added = [];
    extends = same ∙ sym (append-nil before);
    size = refl;
    fresh = record { unused = λ i h. rw same (fresh.unused i (omega arith)); apart = fresh.apart };
    stands = stands;
    was = was;
  }

  with_result-Law :
      (k : ℕ) (e : Entry) (es : List Entry) (before mid after : List Row) (is_new : Bool)
      (loop : Loop)
      → Grown k e before mid is_new
      → LoopLaw mid es loop after
      → LoopLaw before (e ∷ es) (with_result e is_new loop) after
  with_result-Law k e es before mid after is_new (aborted bad) g (added, same) =
      (g.added ++ added, same ∙ extends_twice before g.added added g.extends)
  with_result-Law k e es before mid after is_new (saved_all rs) g s =
      let stands : any (entry_key e) after ≡ true =
        rw (s.extends) (any-left (entry_key e) mid s.added g.stands) in
      record {
        in_order = ap (λ l. e ∷ l) s.in_order;
        grows =
            grown_length is_new before mid after g.added (count_if flag rs) g.extends g.size
              s.grows;
        kept = (
          record { stands = stands; was_absent = λ n. g.was ∙ ap not n },
          Kept-earlier before mid after g.added g.extends rs s.kept,
        );
        added = g.added ++ s.added;
        extends = s.extends ∙ extends_twice before g.added s.added g.extends;
      }

  continue-Law :
      (k : ℕ) (e : Entry) (es : List Entry) (db : Db) (out : Answer Bool × Db)
      (rest : Db → Loop × Db) (a c : String)
      → AreFresh uuids k (rows db)
      → SaveLaw (new_row (uuids k) (stamps k) a c e) (rows db) out.0 (rows out.1)
      → KeyLaw t codec (uuids k) (stamps k) e (rows db) out.0 (rows out.1)
      → ((mid : Db)
          → AreFresh uuids (suc k) (rows mid)
          → LoopLaw (rows mid) es (rest mid).0 (rows (rest mid).1))
      → LoopLaw
          (rows db)
          (e ∷ es)
          (continue t codec uuids stamps e out rest).0
          (rows (continue t codec uuids stamps e out rest).1)
  continue-Law k e es db (value is_new, mid) rest a c fresh law key ih =
      let g = save-Grown k e a c (rows db) (rows mid) is_new fresh law key in
      with_result-Law k e es (rows db) (rows mid) (rows (rest mid).1) is_new (rest mid).0 g
        (ih mid g.fresh)
  continue-Law k e es db (not_found, mid) rest a c fresh law key ih =
      ([], law ∙ sym (append-nil (rows db)))
  continue-Law k e es db (catalogue_unavailable, mid) rest a c fresh law key ih =
      ([], law ∙ sym (append-nil (rows db)))

  -- The loop of `Fetch` with fresh uuids: if it saves all, the results are the entries in order,
  -- the catalogue grows by one row for each that is new, every key stands in it afterwards, and a
  -- new one stood in no row before; if a save fails, the rows saved before it stay.
  pub save_all_lem :
      (k : ℕ) (es : List Entry) (db : Db)
      → AreFresh uuids k (rows db)
      → LoopLaw
          (rows db)
          es
          (save_all t codec uuids stamps k es db).0
          (rows (save_all t codec uuids stamps k es db).1)
  unfolding save_all
  save_all_lem k [] db fresh = record {
    in_order = refl;
    grows = omega arith;
    kept = tt;
    added = [];
    extends = sym (append-nil (rows db));
  }
  save_all_lem k (e ∷ es) db fresh =
      let (a, c, _, _, law) = save_lem t codec (uuids k) (stamps k) e db in
      continue-Law k e es db (save t codec (uuids k) (stamps k) e db)
        (λ mid. save_all t codec uuids stamps (suc k) es mid) a c fresh law
        (save_key t codec (uuids k) (stamps k) e db (fresh.unused k (omega arith)))
        (λ mid f. save_all_lem (suc k) es mid f)
