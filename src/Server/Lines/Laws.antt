-- ===== src/Server/Lines/Laws.antt =====
-- What the loop over the lines of a datagram does.
use spectatord.Base.{
  ℕ, zero, suc, ◌≤◌, ◌<◌, ◌≡◌, ◌≢◌, inl, inr, refl, ap, ◌∙◌, List, [], ◌∷◌, ◌++◌, Option, none,
  some, Bool, true, false, not, ◌&&◌, ◌==◌, length, drop, arith, Bool-cases, Option-cases,
  length-drop, if◌then◌else◌,
}
use spectatord.CText.{deref, strchr}
use spectatord.Float.{Float}
use spectatord.Meter.Counter
use spectatord.MeterMap.{update}
use spectatord.Server.{Server}
use spectatord.Server.Lines.{skip_newlines, after_line, parse_lines, terminate}

length-skip_newlines : (p : List ℕ) → length (skip_newlines p) ≤ length p
length-skip_newlines [] = omega arith
length-skip_newlines (c ∷ p) = elim (Bool-cases (c == 10)) [
  | inl e ↦ grind (arith, e, length-skip_newlines p)
  | inr e ↦ grind (arith, e)
]

-- The text of lines, as a client sends it: a newline between two lines, a 0 at the end.
abbrev pub joined : List ℕ → List (List ℕ) → List ℕ
joined l [] = l ++ 0 ∷ []
joined l (m ∷ ls) = l ++ 10 ∷ joined m ls

-- A line that is not empty and holds no newline and no 0.
abbrev is_text : List ℕ → Bool
is_text [] = true
is_text (c ∷ l) = not (c == 0) && not (c == 10) && is_text l

abbrev pub IsLine : List ℕ → Type 0
IsLine l = (is_text l ≡ true) × (0 < length l)

abbrev pub AllLines : List (List ℕ) → Type 0
AllLines [] = Unit
AllLines (l ∷ ls) = IsLine l × AllLines ls

strchr-line :
    (l : List ℕ) (m : List ℕ) → is_text l ≡ true → strchr 10 (l ++ 10 ∷ m) ≡ some (length l)
strchr-line [] m h = refl
strchr-line (c ∷ l) m h = ground (arith, strchr-line l m)

strchr-last : (l : List ℕ) → is_text l ≡ true → strchr 10 (l ++ 0 ∷ []) ≡ none
strchr-last [] h = refl
strchr-last (c ∷ l) h = ground (arith, strchr-last l)

terminate-line : (l : List ℕ) (m : List ℕ) → terminate (l ++ 10 ∷ m) (length l) ≡ l ++ 0 ∷ m
terminate-line [] m = refl
terminate-line (c ∷ l) m = ap (λ r. c ∷ r) (terminate-line l m)

drop-line : (l : List ℕ) (m : List ℕ) → drop (suc (length l)) (l ++ 10 ∷ m) ≡ m
drop-line [] m = refl
drop-line (c ∷ l) m = drop-line l m

deref-joined : (l : List ℕ) (ls : List (List ℕ)) → IsLine l → (deref (joined l ls) == 0) ≡ false
deref-joined [] ls h = ground (arith, h.1)
deref-joined (c ∷ l) [] h = ground (arith, h.0)
deref-joined (c ∷ l) (m ∷ ls) h = ground (arith, h.0)

skip-joined :
    (l : List ℕ) (ls : List (List ℕ)) → IsLine l → skip_newlines (joined l ls) ≡ joined l ls
skip-joined [] ls h = ground (arith, h.1)
skip-joined (c ∷ l) [] h = ground (arith, h.0)
skip-joined (c ∷ l) (m ∷ ls) h = ground (arith, h.0)

abbrev pub errors_of : {E : Type 0} → Option E → List E
errors_of none = []
errors_of (some e) = e ∷ []

module _ (F : Float) (now : ℕ) where
  -- The daemon with one more at a counter, and as it is if status metrics are disabled.
  abbrev pub one_more : Server F → ℕ → Server F
  one_more s address =
      let r = s.registry in
      let all = r.all_meters in
      let counted = update all.counters address (λ c. Counter.increment F c now) in
      if r.config.status_metrics_enabled
      then record s { registry = record r { all_meters = record all { counters = counted } } }
      else s

module _ {E : Type 0} (F : Float) (now : ℕ) where
  -- One more at the counter of errors, or at that of parsed lines.
  abbrev pub tallied : Server F → Option E → Server F
  tallied s none = one_more F now s s.parsed_count
  tallied s (some e) = one_more F now s s.parse_errors

  after_line_lem : (r : Server F × Option E) → after_line F now r ≡ (tallied r.0 r.1, errors_of r.1)
  unfolding after_line
  after_line_lem (s, none) = refl
  after_line_lem (s, some e) = refl

module _ {E : Type 0} (F : Float) (now : ℕ) (parser : Server F → List ℕ → Server F × Option E) where
  -- Each line in turn, with what follows it in the memory: its answer is tallied, and its error is kept.
  abbrev pub feed : Server F → List ℕ → List (List ℕ) → Server F × List E
  feed s l [] =
      let (s', answer) = parser s (l ++ 0 ∷ []) in (tallied F now s' answer, errors_of answer)
  feed s l (m ∷ ls) =
      let (s', answer) = parser s (l ++ 0 ∷ joined m ls) in
      let (s'', es) = feed (tallied F now s' answer) m ls in (s'', errors_of answer ++ es)

  parse_lines_some :
      (fuel : ℕ) (s : Server F) (p : List ℕ)
      → length p < fuel
      → parse_lines F now parser fuel s p ≢ none
  unfolding parse_lines
  parse_lines_some zero s p h = ground arith
  parse_lines_some (suc fuel) s [] h = ground arith
  parse_lines_some (suc fuel) s (c ∷ p) h = elim (Option-cases (strchr 10 (c ∷ p))) [
    | inl n ↦ ground (arith, n)
    | inr (i, n) ↦
        let rest =
          parse_lines_some fuel (after_line F now (parser s (terminate (c ∷ p) i))).0
            (skip_newlines (drop i p))
            (omega (arith, length-skip_newlines (drop i p), length-drop i p)) in
        ground (arith, n, rest)
  ]

  -- With more fuel than the memory has characters, the loop comes to its end.
  pub parse_lines_ends :
      (fuel : ℕ) (s : Server F) (p : List ℕ)
      → length p < fuel
      → (r : Server F × List E) × (parse_lines F now parser fuel s p ≡ some r)
  parse_lines_ends fuel s p h = elim (Option-cases (parse_lines F now parser fuel s p)) [
    | inl e ↦ absurd (parse_lines_some fuel s p h e)
    | inr r ↦ r
  ]

  step_last :
      (fuel : ℕ) (s : Server F) (p : List ℕ)
      → (deref p == 0) ≡ false
      → strchr 10 p ≡ none
      → parse_lines F now parser (suc fuel) s p ≡ some (after_line F now (parser s p))
  unfolding parse_lines
  step_last fuel s p e n = ground (arith, e, n)

  step_line :
      (fuel : ℕ) (s : Server F) (p line rest : List ℕ) (i : ℕ) (r : Server F × List E)
      → (deref p == 0) ≡ false
      → strchr 10 p ≡ some i
      → terminate p i ≡ line
      → skip_newlines (drop (suc i) p) ≡ rest
      → parse_lines F now parser fuel (after_line F now (parser s line)).0 rest ≡ some r
      → parse_lines F now parser (suc fuel) s p
        ≡ some (r.0, (after_line F now (parser s line)).1 ++ r.1)
  unfolding parse_lines
  step_line fuel s p line rest i r e n t d g =
      rw (parse_lines, e, n, t, d, g)
        (ap (λ x. some (r.0, (after_line F now (parser s x)).1 ++ r.1)) t)

  -- Lines that are not empty and hold no 0, joined by newlines, with more fuel than lines after the first: each is parsed
  -- in turn, by the daemon that the lines before have left, with its newline overwritten by a 0. After each line the
  -- counter of errors or that of parsed lines goes up by one, if status metrics are enabled, and the errors are collected
  -- in the order of the lines.
  pub parse_lines-joined :
      (fuel : ℕ) (s : Server F) (l : List ℕ) (ls : List (List ℕ))
      → IsLine l
      → AllLines ls
      → length ls < fuel
      → parse_lines F now parser fuel s (joined l ls) ≡ some (feed s l ls)
  unfolding parse_lines
  parse_lines-joined zero s l ls h hs e = ground arith
  parse_lines-joined (suc fuel) s l [] h hs e =
      step_last fuel s (joined l []) (deref-joined l [] h) (strchr-last l h.0)
      ∙ ap some (after_line_lem F now (parser s (l ++ 0 ∷ [])))
  parse_lines-joined (suc fuel) s l (m ∷ ls) h hs e =
      let e' = after_line_lem F now (parser s (l ++ 0 ∷ joined m ls)) in
      step_line fuel s (joined l (m ∷ ls)) (l ++ 0 ∷ joined m ls) (joined m ls) (length l)
        (feed (after_line F now (parser s (l ++ 0 ∷ joined m ls))).0 m ls)
        (deref-joined l (m ∷ ls) h) (strchr-line l (joined m ls) h.0)
        (terminate-line l (joined m ls))
        (ap skip_newlines (drop-line l (joined m ls)) ∙ skip-joined m ls hs.0)
        (parse_lines-joined fuel _ m ls hs.0 hs.1 (omega arith))
      ∙ ap (λ (r : Server F × List E). some ((feed r.0 m ls).0, r.1 ++ (feed r.0 m ls).1)) e'
