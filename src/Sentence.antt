-- ===== src/Sentence.antt =====
-- compactor/main.py: `trim_to_last_sentence` and what it asks of a character. The Unicode tables of
-- Python's str methods are an argument. `before` is the text in front of a position, read backwards.
pub mod Scan
pub mod Longest
use mathlib.Core.List.{reverse}
use zions_light_ai.Prelude.{
  ℕ, zero, suc, ◌+◌, ◌*◌, ◌%◌, Bool, true, false, not, ◌&&◌, ◌||◌, Option, none, some, List, [],
  ◌∷◌, length, take, drop, any, leb, ◌==◌, if◌then◌else◌, map,
}
use zions_light_ai.Prelude.Text.{Text, codes, is_space, lstrip, starts_with, same_text}

pub record Chars : Type 0 where
  pub is_alnum : ℕ → Bool
  pub is_upper : ℕ → Bool
  pub is_digit : ℕ → Bool
  pub lower : Text → Text

-- the characters of `str.splitlines`
unfoldable pub is_break : ℕ → Bool
is_break c = (leb 10 c && leb c 13) || (leb 28 c && leb c 30) || c == 133 || c == 8232 || c == 8233

unfoldable pub ends_line : ℕ → Text → Bool
unfolding is_break
ends_line c [] = is_break c
ends_line c (d ∷ t) = is_break c && not (c == 13 && d == 10)

unfoldable pub push : ℕ → List Text → List Text
push c [] = (c ∷ []) ∷ []
push c (l ∷ ls) = (c ∷ l) ∷ ls

-- `text.splitlines(keepends=True)`
unfoldable pub split_lines : Text → List Text
unfolding ends_line push
split_lines [] = []
split_lines (c ∷ t) =
    let rest = split_lines t in if ends_line c t then (c ∷ []) ∷ rest else push c rest

unfoldable pub is_fence : Text → Bool
unfolding lstrip starts_with
is_fence line = starts_with (b'`' ∷ b'`' ∷ b'`' ∷ []) (lstrip line)

-- where the lines start that are fences
unfoldable pub toggles : ℕ → List Text → List ℕ
unfolding is_fence
toggles pos [] = []
toggles pos (line ∷ lines) =
    let rest = toggles (pos + length line) lines in if is_fence line then pos ∷ rest else rest

-- `bisect.bisect_right` on a list that ascends
unfoldable pub bisect_right : List ℕ → ℕ → ℕ
bisect_right [] i = 0
bisect_right (t ∷ ts) i = let rest = bisect_right ts i in if leb t i then suc rest else rest

unfoldable pub in_fence : List ℕ → ℕ → Bool
unfolding bisect_right
in_fence fences i = bisect_right fences i % 2 == 1

unfoldable pub starts : (ℕ → Bool) → Text → Bool
starts p [] = false
starts p (c ∷ t) = p c

-- the longest first part of characters that pass
unfoldable pub span : (ℕ → Bool) → Text → ℕ
span p [] = 0
span p (c ∷ t) = let rest = span p t in if p c then suc rest else 0

unfoldable pub is_letter : ℕ → Bool
is_letter c = (leb 97 c && leb c 122) || (leb 65 c && leb c 90)

abbrev pub abbrev_scan_chars : ℕ
abbrev_scan_chars = 12

unfoldable pub abbreviations : List Text
unfolding codes
abbreviations = map codes (
    "mr" ∷ "mrs" ∷ "ms" ∷ "dr" ∷ "prof" ∷ "sr" ∷ "jr" ∷ "st" ∷ "vs" ∷ "etc" ∷ "e.g" ∷ "i.e" ∷ "cf"
    ∷ "viz" ∷ "approx" ∷ "vol" ∷ "fig" ∷ "dept" ∷ "inc" ∷ "ltd" ∷ "u.s" ∷ "u.k" ∷ "a.m" ∷ "p.m"
    ∷ "ph.d" ∷ "mt" ∷ "ft" ∷ "gen" ∷ "rev" ∷ "hon" ∷ "capt" ∷ "col" ∷ "lt" ∷ "sgt" ∷ "ex" ∷ "lev"
    ∷ "num" ∷ "deut" ∷ "josh" ∷ "judg" ∷ "sam" ∷ "kgs" ∷ "chr" ∷ "neh" ∷ "ps" ∷ "prov" ∷ "eccl"
    ∷ "isa" ∷ "jer" ∷ "lam" ∷ "ezek" ∷ "dan" ∷ "hos" ∷ "mic" ∷ "hab" ∷ "zeph" ∷ "hag" ∷ "zech"
    ∷ "mal" ∷ "matt" ∷ "mk" ∷ "lk" ∷ "jn" ∷ "rom" ∷ "cor" ∷ "gal" ∷ "eph" ∷ "phil" ∷ "thess" ∷ "tim"
    ∷ "tit" ∷ "philem" ∷ "heb" ∷ "jas" ∷ "pet" ∷ [])

unfoldable pub is_stop : ℕ → Bool
is_stop c = c == b'.' || c == b'!' || c == b'?'

unfoldable pub is_wide_stop : ℕ → Bool
is_wide_stop c = c == 12290 || c == 65281 || c == 65311

-- the closing marks of `_SENTENCE_END_RE`'s two arms
unfoldable pub is_mark : ℕ → Bool
is_mark c =
    c == 34
    || c == 39
    || c == 8221
    || c == 8217
    || c == 41
    || c == 93
    || c == 187
    || c == 42
    || c == 95
    || c == 126
    || c == 96

unfoldable pub is_wide_mark : ℕ → Bool
is_wide_mark c =
    c == 34 || c == 8221 || c == 8217 || c == 12301 || c == 12303 || c == 65289 || c == 41

unfoldable pub is_end : Text → Bool
unfolding starts
is_end [] = true
is_end (c ∷ t) = is_space c

-- `_SENTENCE_END_RE` at a character: how many marks its match has. No other number of marks lets
-- the look ahead succeed.
unfoldable pub match_at : ℕ → Text → Option ℕ
unfolding is_stop is_wide_stop is_end span
match_at c rest =
    if is_stop c
    then (if is_end (drop (span is_mark rest) rest) then some (span is_mark rest) else none)
    else if is_wide_stop c
    then some (span is_wide_mark rest)
    else none

abbrev pub or_last : Option ℕ → ℕ → ℕ
or_last none last = last
or_last (some e) last = e

module _ (chars : Chars) where
  -- the dotted word in front of a terminator, backwards, and what is in front of it
  unfoldable pub word_size : Text → ℕ
  unfolding span is_letter
  word_size before = span (λ c. is_letter c || c == b'.') (take abbrev_scan_chars before)

  unfoldable pub is_initial : Text → Bool
  is_initial [] = false
  is_initial (c ∷ []) = chars.is_upper c
  is_initial (c ∷ d ∷ t) = false

  unfoldable pub is_list_marker : Text → Bool
  unfolding span is_end starts
  is_list_marker before =
      let k = span chars.is_digit before in
      let line = drop k before in
      let rest = drop (span (λ c. c == 32 || c == 9) line) line in
      leb 1 k && (leb (length rest) 0 || starts (λ c. c == 10) rest)

  -- `_is_real_sentence_end` at a `.`
  unfoldable pub is_real_period : Text → Bool
  unfolding word_size is_initial is_list_marker starts same_text
  is_real_period before =
      let size = word_size before in
      let word = reverse (take size before) in
      if starts (λ c. c == b'.') before
      then false
      else if leb size 0
      then not (is_list_marker before)
      else if starts chars.is_alnum (drop size before)
      then true
      else not (any (same_text (chars.lower word)) abbreviations || is_initial word)

  unfoldable pub is_real_sentence_end : Text → ℕ → Bool
  unfolding is_real_period
  is_real_sentence_end before c = if c == b'.' then is_real_period before else true

  -- the end of a match that `trim_to_last_sentence` accepts, at position `i`
  unfoldable pub boundary : List ℕ → ℕ → Text → ℕ → Text → Option ℕ
  unfolding match_at is_real_sentence_end in_fence
  boundary fences i before c rest =
      if in_fence fences i
      then none
      else if is_real_sentence_end before c
      then elim (match_at c rest) [ none ↦ none | some marks ↦ some (suc i + marks) ]
      else none

  unfoldable pub last_end : List ℕ → ℕ → Text → Text → ℕ → ℕ
  unfolding boundary
  last_end fences i before [] last = last
  last_end fences i before (c ∷ rest) last =
      last_end fences (suc i) (c ∷ before) rest (or_last (boundary fences i before c rest) last)

  unfoldable pub trim_to_last_sentence : Text → Text
  unfolding last_end toggles split_lines
  trim_to_last_sentence text =
      let end = last_end (toggles 0 (split_lines text)) 0 [] text 0 in
      if leb end 0 || not (leb end (length text)) then [] else take end text
