-- ===== src/Server/Lines.antt =====
-- `Server::parse_lines` of server/spectatord.cc: the lines of a datagram, one after the other. The parser of a line
-- gets the memory from the line on, in which the newline that ends the line is overwritten by a 0. The
-- messages that the code joins with newlines are a list.
pub mod Laws
use spectatord.Base.{
  ℕ, zero, suc, ◌+◌, List, [], ◌∷◌, ◌++◌, Option, none, some, Bool, true, false, ◌==◌, take, drop,
  if◌then◌else◌,
}
use spectatord.CText.{deref, strchr}
use spectatord.Float.{Float}
use spectatord.Meter.Counter
use spectatord.MeterMap.{update}
use spectatord.Server.{Server}

-- `while (*++newline == '\n')`, from the character behind the newline on.
abbrev pub skip_newlines : List ℕ → List ℕ
skip_newlines [] = []
skip_newlines (c ∷ p) = if c == 10 then skip_newlines p else c ∷ p

-- `*newline = '\0'`, at an offset.
abbrev pub terminate : List ℕ → ℕ → List ℕ
terminate p i = take i p ++ 0 ∷ drop (suc i) p

module _ (F : Float) (now : ℕ) where
  abbrev pub count_line : Server F → ℕ → Server F
  count_line s counter =
      if s.registry.config.status_metrics_enabled
      then record s {
        registry = record (s.registry) {
          all_meters = record (s.registry.all_meters) {
            counters =
                update s.registry.all_meters.counters counter (λ c. Counter.increment F c now);
          };
        };
      }
      else s

module _ {E : Type 0} (F : Float) (now : ℕ) where
  -- What the loop does with the parser's answer.
  unfoldable pub after_line : Server F × Option E → Server F × List E
  after_line (s, some e) = (count_line F now s s.parse_errors, e ∷ [])
  after_line (s, none) = (count_line F now s s.parsed_count, [])

  module _ (parser : Server F → List ℕ → Server F × Option E) where
    -- The loop, out of fuel at 0. Each round moves on by a character at least.
    unfoldable pub parse_lines : ℕ → Server F → List ℕ → Option (Server F × List E)
    unfolding after_line
    parse_lines zero s p = none
    parse_lines (suc fuel) s p = elim (deref p == 0) [
      | true ↦ some (s, [])
      | false ↦ elim (strchr 10 p) [
        | none ↦ some (after_line (parser s p))
        | some i ↦
            let (s', es) = after_line (parser s (terminate p i)) in
            elim (parse_lines fuel s' (skip_newlines (drop (suc i) p))) [
              | none ↦ none
              | some (s'', es') ↦ some (s'', es ++ es')
            ]
      ]
    ]
