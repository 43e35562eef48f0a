-- ===== src/Website/Cards.antt =====
-- The cards of archive/website/src/pages/docs.tsx, for any list of documents.
use Prim.Native.String.{String}
use text.Mathlib.Text.{◌==◌ as str_eq}
use waddle_perf.Common.{
  ℕ, suc, ◌+◌, List, [], ◌∷◌, ◌++◌, map, Bool, if◌then◌else◌, ◌≡◌, ◌⊎◌, refl, ap, ◌∙◌, inl, inr,
  arith, All,
}
use waddle_perf.Website.{Doc, keep_if, of_category, sections}
use waddle_perf.Website.Docs.{Card, card, docs_page, cards}

-- How many documents have a property.
abbrev pub count : (Doc → Bool) → List Doc → ℕ
count q [] = 0
count q (d ∷ ds) = if q d then suc (count q ds) else count q ds

abbrev pub docs_of : List Card → List Doc
docs_of = map (λ c. c.doc)

abbrev pub IsFiled : Doc → Type 0
IsFiled d = (d.category ≡ "getting-started") ⊎ ((d.category ≡ "core") ⊎ (d.category ≡ "reference"))

module _ (q : Doc → Bool) where
  count-append : (xs ys : List Doc) → count q (xs ++ ys) ≡ count q xs + count q ys
  count-append [] ys = omega arith
  count-append (x ∷ xs) ys = ground (arith, count-append xs ys)

  -- The three sections of the page.
  abbrev filed : List Doc → ℕ
  filed ds =
      count q (of_category "getting-started" ds)
      + (count q (of_category "core" ds) + count q (of_category "reference" ds))

  count-of_category :
      (c s : String) (d : Doc) (ds : List Doc)
      → d.category ≡ s
      → count q (of_category c (d ∷ ds)) ≡ count q (keep_if (str_eq s c) d (of_category c ds))
  unfolding of_category
  count-of_category c s d ds e = ap (λ t. count q (keep_if (str_eq t c) d (of_category c ds))) e

  filed-cons :
      (s : String) (d : Doc) (ds : List Doc)
      → d.category ≡ s
      → filed (d ∷ ds)
        ≡ count q (keep_if (str_eq s "getting-started") d (of_category "getting-started" ds))
          + (count q (keep_if (str_eq s "core") d (of_category "core" ds))
              + count q (keep_if (str_eq s "reference") d (of_category "reference" ds)))
  filed-cons s d ds e = omega (
    arith,
    count-of_category "getting-started" s d ds e,
    count-of_category "core" s d ds e,
    count-of_category "reference" s d ds e,
  )

  filed-eq : (ds : List Doc) → All IsFiled ds → filed ds ≡ count q ds
  filed-eq [] h = unfold of_category in omega arith
  filed-eq (d ∷ ds) (inl e, h) = filed-cons "getting-started" d ds e ∙ ground (arith, filed-eq ds h)
  filed-eq (d ∷ ds) (inr (inl e), h) = filed-cons "core" d ds e ∙ ground (arith, filed-eq ds h)
  filed-eq (d ∷ ds) (inr (inr e), h) = filed-cons "reference" d ds e ∙ ground (arith, filed-eq ds h)

docs_of-card : (more : String) (ds : List Doc) → docs_of (map (card more) ds) ≡ ds
docs_of-card more [] = refl
docs_of-card more (d ∷ ds) = ap (λ es. d ∷ es) (docs_of-card more ds)

docs_of-append : (cs ds : List Card) → docs_of (cs ++ ds) ≡ docs_of cs ++ docs_of ds
docs_of-append [] ds = refl
docs_of-append (c ∷ cs) ds = ap (λ es. c.doc ∷ es) (docs_of-append cs ds)

-- For any documents of the three categories: the cards of the page are for these documents, each as
-- often as it is in the list.
count-cards :
    (q : Doc → Bool) (ds : List Doc)
    → All IsFiled ds
    → count q (docs_of (cards (docs_page ds))) ≡ count q ds
unfolding docs_page sections
count-cards q ds filed_all =
    let s = sections ds in
    let started = map (card "Learn more") s.getting_started in
    let core = map (card "Explore") s.core_features in
    let reference = map (card "View details") s.reference in
    ap (count q) (
      docs_of-append started (core ++ reference)
      ∙ ap (λ es. docs_of started ++ es) (docs_of-append core reference)
      ∙ ap (λ es. es ++ (docs_of core ++ docs_of reference)) (docs_of-card _ s.getting_started)
      ∙ ap (λ es. s.getting_started ++ (es ++ docs_of reference)) (docs_of-card _ s.core_features)
      ∙ ap (λ es. s.getting_started ++ (s.core_features ++ es)) (docs_of-card _ s.reference))
    ∙ count-append q s.getting_started (s.core_features ++ s.reference)
    ∙ ap (λ n. count q s.getting_started + n) (count-append q s.core_features s.reference)
    ∙ filed-eq q ds filed_all
