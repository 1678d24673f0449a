-- ===== src/Citations/Splits.antt =====
-- src/lib/evidence/citations.ts: containsWithPdfWordFragmentRepair against what it is meant to find,
-- a place in the page that reads as the quote but for words that the PDF has split.
use mathlib.Core.List.{append_assoc, append-nil}
use monidhackson.Base.{
  ℕ, zero, suc, ◌+◌, ◌≤◌, ◌≡◌, ◌↔◌, refl, sym, ap, ◌∙◌, inl, inr, Bool, true, false, ◌&&◌, ◌||◌,
  List, [], ◌∷◌, ◌++◌, some, map, length, length-append, All, subst, ltb, leb, Bool-cases,
  Option-cases, arith,
}
use monidhackson.PageIndex.{Text, joined}
use monidhackson.Citations.Repair.{
  same_text, same_text_iff, has_prefix, looks_split, max_pdf_word_fragments,
  min_repaired_quote_length, is_head, tail, repaired_end, matches_from, matches_somewhere,
  contains_with_pdf_word_fragment_repair,
}

has_prefix-append : (s t : Text) → has_prefix (s ++ t) s ≡ true
unfolding has_prefix
has_prefix-append [] [] = refl
has_prefix-append [] (d ∷ ds) = refl
has_prefix-append (c ∷ cs) t = ground (arith, has_prefix-append cs t)

has_prefix_refl : (s : Text) → has_prefix s s ≡ true
unfolding has_prefix
has_prefix_refl [] = refl
has_prefix_refl (c ∷ cs) = ground (arith, has_prefix_refl cs)

same_text_refl : (s : Text) → same_text s s ≡ true
same_text_refl s = (same_text_iff s s).1 refl

-- A proper beginning is another text.
same_text_longer : (s t : Text) → 1 ≤ length t → same_text s (s ++ t) ≡ false
same_text_longer s t h = elim (Bool-cases (same_text s (s ++ t))) [
  | inr other ↦ other
  | inl same ↦
      let e = (same_text_iff s (s ++ t)).0 same in
      absurd (omega (arith, ap length e, length-append s t))
]

module _ (is_alphabetic : Text → Bool) where
  abbrev pub IsPart : Text → Type 0
  IsPart f = (1 ≤ length f) × (is_alphabetic f ≡ true)

  -- A word of four letters or more in two or three alphabetic parts, of which one is a single
  -- letter and one has three or more.
  pub record IsSplit (word : Text) (parts : List Text) : Type 0 where
    pub whole : joined parts ≡ word
    pub alphabetic : All IsPart parts
    pub two : 2 ≤ length parts
    pub three : length parts ≤ max_pdf_word_fragments
    pub shape : looks_split (map length parts) ≡ true
    pub long : 4 ≤ length word
    pub word_alphabetic : is_alphabetic word ≡ true

  -- The lexemes of a quote, and a stretch of the page that reads like them; the flag says whether
  -- some word is split there.
  pub data Reads : Bool → List Text → List Text → Type 0 where
    end : Reads false [] []
    same : {b : Bool} {q : Text} {qs ps : List Text} → Reads b qs ps → Reads b (q ∷ qs) (q ∷ ps)
    split :
        {b : Bool} {q : Text} {qs ps page : List Text} (parts : List Text)
        → IsSplit q parts
        → page ≡ parts ++ ps
        → Reads b qs ps
        → Reads true (q ∷ qs) page

  -- A stretch of the page reads like the quote, with a word that is split.
  pub record Occurs (quote page : List Text) : Type 0 where
    pub before : List Text
    pub stretch : List Text
    pub after : List Text
    pub place : page ≡ before ++ (stretch ++ after)
    pub reads : Reads true quote stretch

  -- What is known when a repair was found.
  record Found (n : ℕ) (word so_far : Text) (lengths : List ℕ) (page rest : List Text)
      : Type 0 where
    parts : List Text
    place : page ≡ parts ++ rest
    whole : so_far ++ joined parts ≡ word
    alphabetic : All IsPart parts
    count : length parts ≤ n
    two : 2 ≤ length lengths + length parts
    shape : looks_split (lengths ++ map length parts) ≡ true

  Found-last :
      (n : ℕ) (word so_far f : Text) (lengths : List ℕ) (fs : List Text)
      → IsPart f
      → ltb 0 (length lengths)
          && same_text (so_far ++ f) word
          && looks_split (lengths ++ length f ∷ [])
        ≡ true
      → Found (suc n) word so_far lengths (f ∷ fs) fs
  Found-last n word so_far f lengths fs part done = record {
    parts = f ∷ [];
    place = refl;
    whole = rw append-nil ((same_text_iff (so_far ++ f) word).0 (ground arith));
    alphabetic = (part, tt);
    count = omega arith;
    two = ground arith;
    shape = ground arith;
  }

  Found-next :
      (n : ℕ) (word so_far f : Text) (lengths : List ℕ) (fs rest : List Text)
      → IsPart f
      → Found n word (so_far ++ f) (lengths ++ length f ∷ []) fs rest
      → Found (suc n) word so_far lengths (f ∷ fs) rest
  Found-next n word so_far f lengths fs rest part found = record {
    parts = f ∷ found.parts;
    place = ap (λ ys. f ∷ ys) found.place;
    whole = rw (← append_assoc so_far f (joined found.parts)) found.whole;
    alphabetic = (part, found.alphabetic);
    count = omega (arith, found.count);
    two = omega (arith, found.two, length-append lengths (length f ∷ []));
    shape = rw append_assoc at found.shape;
  }

  repaired_end-Found :
      (n : ℕ) (word so_far : Text) (lengths : List ℕ) (page rest : List Text)
      → repaired_end is_alphabetic n word so_far lengths page ≡ some rest
      → Found n word so_far lengths page rest
  unfolding repaired_end
  repaired_end-Found zero word so_far lengths page rest h = cc
  repaired_end-Found (suc n) word so_far lengths [] rest h = cc
  repaired_end-Found (suc n) word so_far lengths ([] ∷ fs) rest h = cc
  repaired_end-Found (suc n) word so_far lengths ((c ∷ cs) ∷ fs) rest h =
      let f : Text = c ∷ cs in
      elim (Bool-cases (is_alphabetic f)) [
        | inr wrong ↦ let e = rw wrong at h in cc
        | inl alphabetic ↦ elim (Bool-cases (has_prefix word (so_far ++ f))) [
          | inr wrong ↦ let e = rw (alphabetic, wrong) at h in cc
          | inl begins ↦
              elim (Bool-cases (
                ltb 0 (length lengths)
                && same_text (so_far ++ f) word
                && looks_split (lengths ++ length f ∷ []))) [
                  | inl done ↦
                      let e : fs ≡ rest = ground arith in
                      rw (← e)
                        (Found-last n word so_far f lengths fs (omega arith, alphabetic) done)
                  | inr more ↦
                      Found-next n word so_far f lengths fs rest (omega arith, alphabetic)
                        (repaired_end-Found n word (so_far ++ f) (lengths ++ length f ∷ []) fs rest
                          (rw (alphabetic, begins, more) at h))
                ]
        ]
      ]

  -- A split word is found: the parts before the last do not make up the word.
  repaired_end-finds :
      (n : ℕ) (word so_far f : Text) (lengths : List ℕ) (fs rest : List Text)
      → so_far ++ joined (f ∷ fs) ≡ word
      → All IsPart (f ∷ fs)
      → length (f ∷ fs) ≤ n
      → 2 ≤ length lengths + length (f ∷ fs)
      → looks_split (lengths ++ map length (f ∷ fs)) ≡ true
      → repaired_end is_alphabetic n word so_far lengths (f ∷ fs ++ rest) ≡ some rest
  unfolding repaired_end
  repaired_end-finds zero word so_far f lengths fs rest whole parts count two shape =
      absurd (omega arith)
  repaired_end-finds (suc n) word so_far [] lengths fs rest whole parts count two shape =
      absurd (omega (arith, parts.0.0))
  repaired_end-finds (suc n) word so_far (c ∷ cs) lengths [] rest whole parts count two shape =
      let e : so_far ++ c ∷ cs ≡ word = rw append-nil at whole in
      let begins : has_prefix word (so_far ++ c ∷ cs) ≡ true =
        rw (← e) (has_prefix_refl (so_far ++ c ∷ cs)) in
      let same = (same_text_iff (so_far ++ c ∷ cs) word).1 e in ground (arith, parts.0.1)
  repaired_end-finds (suc n) word so_far (c ∷ cs) lengths (g ∷ gs) rest whole parts count two
        shape =
      let f : Text = c ∷ cs in
      let later : Text = joined (g ∷ gs) in
      let e : (so_far ++ f) ++ later ≡ word = append_assoc so_far f later ∙ whole in
      let begins : has_prefix word (so_far ++ f) ≡ true =
        rw (← e) (has_prefix-append (so_far ++ f) later) in
      let other : same_text (so_far ++ f) word ≡ false = rw (← e) (
        same_text_longer (so_far ++ f) later
          (omega (arith, parts.1.0.0, length-append g (joined gs)))) in
      let next =
        repaired_end-finds n word (so_far ++ f) g (lengths ++ length f ∷ []) gs rest e parts.1
          (omega (arith, count)) (omega (arith, length-append lengths (length f ∷ [])))
          (rw append_assoc shape) in
      ground (arith, parts.0.1)

  IsSplit-finds :
      (q : Text) (parts rest : List Text)
      → IsSplit q parts
      → repaired_end is_alphabetic max_pdf_word_fragments q [] [] (parts ++ rest) ≡ some rest
  IsSplit-finds q [] rest s = absurd (omega (arith, s.two))
  IsSplit-finds q (f ∷ fs) rest s =
      repaired_end-finds max_pdf_word_fragments q [] f [] fs rest s.whole s.alphabetic s.three
        (omega (arith, s.two)) s.shape

  -- The first part of a split word is not the word.
  IsSplit-head :
      (q : Text) (parts rest : List Text) → IsSplit q parts → is_head q (parts ++ rest) ≡ false
  unfolding is_head
  IsSplit-head q [] rest s = absurd (omega (arith, s.two))
  IsSplit-head q (f ∷ []) rest s = absurd (omega (arith, s.two))
  IsSplit-head q (f ∷ g ∷ gs) rest s = rw (← s.whole) (
      same_text_longer f (joined (g ∷ gs))
        (omega (arith, s.alphabetic.1.0.0, length-append g (joined gs))))

  matches_from-finds :
      {b : Bool} {qs ps : List Text} (after : List Text) (used : Bool)
      → Reads b qs ps
      → matches_from is_alphabetic qs (ps ++ after) used ≡ used || b
  unfolding matches_from is_head tail
  matches_from-finds after used end = ground arith
  matches_from-finds after used (same {b} {q} r) =
      rw (same_text_refl q, matches_from) (matches_from-finds after used r)
  matches_from-finds after used (split {b} {q} {qs} {ps} parts s place r) =
      let here = IsSplit-finds q parts (ps ++ after) s in
      let other = IsSplit-head q parts (ps ++ after) s in
      let long : is_alphabetic q && leb 4 (length q) ≡ true =
        ground (arith, s.long, s.word_alphabetic) in
      let rest = matches_from-finds after true r in
      rw place (rw append_assoc (rw (other, long, here, rest, matches_from) (ground arith)))

  -- What a successful match has read.
  record Read (quote page : List Text) (used : Bool) : Type 0 where
    repaired : Bool
    stretch : List Text
    after : List Text
    place : page ≡ stretch ++ after
    reads : Reads repaired quote stretch
    some_repair : used || repaired ≡ true

  Read-same :
      (q : Text) (qs page : List Text) (used : Bool)
      → is_head q page ≡ true
      → Read qs (tail page) used
      → Read (q ∷ qs) page used
  unfolding is_head tail
  Read-same q qs [] used h r = cc
  Read-same q qs (p ∷ ps) used h r = record {
    repaired = r.repaired;
    stretch = q ∷ r.stretch;
    after = r.after;
    place = let e = (same_text_iff p q).0 h in rw e (ap (λ ys. q ∷ ys) r.place);
    reads = same r.reads;
    some_repair = r.some_repair;
  }

  Read-split :
      (q : Text) (qs page rest : List Text) (used : Bool)
      → is_alphabetic q && leb 4 (length q) ≡ true
      → Found max_pdf_word_fragments q [] [] page rest
      → Read qs rest true
      → Read (q ∷ qs) page used
  Read-split q qs page rest used long f r = record {
    repaired = true;
    stretch = f.parts ++ r.stretch;
    after = r.after;
    place =
        f.place ∙ ap (λ ys. f.parts ++ ys) r.place ∙ sym (append_assoc f.parts r.stretch r.after);
    reads =
        split f.parts
          (record {
            whole = f.whole;
            alphabetic = f.alphabetic;
            two = omega (arith, f.two);
            three = f.count;
            shape = f.shape;
            long = ground arith;
            word_alphabetic = ground arith;
          })
          refl r.reads;
    some_repair = ground arith;
  }

  matches_from-Read :
      (qs page : List Text) (used : Bool)
      → matches_from is_alphabetic qs page used ≡ true
      → Read qs page used
  unfolding matches_from
  matches_from-Read [] page used h = record {
    repaired = false;
    stretch = [];
    after = page;
    place = refl;
    reads = end;
    some_repair = ground arith;
  }
  matches_from-Read (q ∷ qs) page used h = elim (Bool-cases (is_head q page)) [
    | inl equal ↦
        Read-same q qs page used equal
          (matches_from-Read qs (tail page) used (rw (equal, matches_from) at h))
    | inr other ↦ elim (Bool-cases (is_alphabetic q && leb 4 (length q))) [
      | inr short ↦ let e = rw (other, short, matches_from) at h in cc
      | inl long ↦
          elim (Option-cases (repaired_end is_alphabetic max_pdf_word_fragments q [] [] page)) [
            | inl missing ↦ let e = rw (other, long, missing, matches_from) at h in cc
            | inr (rest, found) ↦
                Read-split q qs page rest used long
                  (repaired_end-Found max_pdf_word_fragments q [] [] page rest found)
                  (matches_from-Read qs rest true (rw (other, long, found, matches_from) at h))
          ]
    ]
  ]

  matches_somewhere-Occurs :
      (quote page : List Text)
      → matches_somewhere is_alphabetic quote page ≡ true
      → Occurs quote page
  unfolding matches_somewhere
  matches_somewhere-Occurs quote [] h = cc
  matches_somewhere-Occurs quote (p ∷ ps) h =
      elim (Bool-cases (matches_from is_alphabetic quote (p ∷ ps) false)) [
        | inl now ↦
            let r = matches_from-Read quote (p ∷ ps) false now in
            record {
              before = [];
              stretch = r.stretch;
              after = r.after;
              place = r.place;
              reads = subst (λ b. Reads b quote r.stretch) r.some_repair r.reads;
            }
        | inr later ↦
            let o = matches_somewhere-Occurs quote ps (rw later at h) in
            record {
              before = p ∷ o.before;
              stretch = o.stretch;
              after = o.after;
              place = ap (λ ys. p ∷ ys) o.place;
              reads = o.reads;
            }
      ]

  Reads-length : {b : Bool} {qs ps : List Text} → Reads b qs ps → length qs ≤ length ps
  Reads-length end = omega arith
  Reads-length (same r) = omega (arith, Reads-length r)
  Reads-length (split {ps} parts s place r) =
      rw place (omega (arith, length-append parts ps, Reads-length r, s.two))

  -- A word is split only where there is a word.
  Reads-some : {qs ps : List Text} → Reads true qs ps → 1 ≤ length qs
  Reads-some (same r) = omega arith
  Reads-some (split parts s place r) = omega arith

  matches_somewhere-at :
      (quote before stretch after : List Text)
      → Reads true quote stretch
      → matches_somewhere is_alphabetic quote (before ++ (stretch ++ after)) ≡ true
  unfolding matches_somewhere
  matches_somewhere-at quote [] [] after r = absurd (omega (arith, Reads-some r, Reads-length r))
  matches_somewhere-at quote [] (p ∷ ps) after r = rw (matches_from-finds after false r) refl
  matches_somewhere-at quote (p ∷ ps) stretch after r =
      rw (matches_somewhere-at quote ps stretch after r) (ground arith)

  -- The match with repaired words finds just what it should: it succeeds exactly where the quote has
  -- 24 code units or more and some stretch of the page has the lexemes of the quote in order,
  -- except that at least one word of four letters or more stands there in two or three alphabetic
  -- parts that make it up, one of them a single letter and one of three letters or more. That each
  -- word is tried greedily, without going back, loses no match.
  pub contains_with_pdf_word_fragment_repair_iff :
      (lexemes : Text → List Text) (page quote : Text)
      → (contains_with_pdf_word_fragment_repair is_alphabetic lexemes page quote ≡ true)
        ↔ ((min_repaired_quote_length ≤ length quote) × Occurs (lexemes quote) (lexemes page))
  unfolding contains_with_pdf_word_fragment_repair
  contains_with_pdf_word_fragment_repair_iff lexemes page quote = (
    λ h. (ground arith, matches_somewhere-Occurs (lexemes quote) (lexemes page) (ground arith)),
    λ (long, o).
        let found = matches_somewhere-at (lexemes quote) o.before o.stretch o.after o.reads in
        let found' : matches_somewhere is_alphabetic (lexemes quote) (lexemes page) ≡ true =
          rw o.place found in
        let fits : length (lexemes quote) ≤ length (lexemes page) = rw o.place (
          omega (
            arith,
            length-append o.before (o.stretch ++ o.after),
            length-append o.stretch o.after,
            Reads-length o.reads,
          )) in
        let nonempty = Reads-some o.reads in ground arith,
  )
