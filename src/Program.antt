-- ===== src/Program.antt =====
-- bin/spectatord_main.cc: how the flags of the command line change the configuration.
pub mod CommonTagsFlag
mod Tests
use spectatord.Base.{
  ◌>>=◌, ℕ, List, [], ◌∷◌, Option, none, some, Bool, true, false, ◌≡◌, refl, ◌⊎◌, inl, inr,
  Bool-cases, ◌&&◌, ◌||◌, not, leb, if◌then◌else◌, arith,
}
use spectatord.CText.{chars}
use spectatord.Int.{ℤ, pos, ltb_ℤ}
use spectatord.Admin.CommonTags.{CommonTags}
use spectatord.Program.CommonTagsFlag.{parse_common_tags}
use spectatord.Program.CommonTagsFlag.Complete.{TagList, parse_common_tags-cases}

-- The fields of the configuration that flags change. Durations are in nanoseconds.
pub record MainConfig : Type 0 where
  pub process_name : List ℕ
  pub external_enabled : Bool
  pub metatron_dir : List ℕ
  pub uri : List ℕ
  pub external_uri : List ℕ
  pub verbose_http : Bool
  pub meter_ttl : ℕ
  pub frequency : ℕ
  pub age_gauge_limit : ℕ
  pub common_tags : CommonTags
  pub status_metrics_enabled : Bool

pub record Flags : Type 0 where
  pub process_name : List ℕ
  pub enable_external : Bool
  pub metatron_dir : List ℕ
  pub uri : List ℕ
  pub debug : Bool
  pub verbose_http : Bool
  pub meter_ttl : ℕ
  pub frequency : ℕ
  pub age_gauge_limit : ℕ
  pub common_tags : List ℕ
  pub no_common_tags : Bool

-- `AbslParseFlag` of a port, on the integer that the text stands for.
unfoldable pub parse_port : Option ℤ → Option ℤ
parse_port none = none
parse_port (some port) = if ltb_ℤ port (pos 1) || ltb_ℤ (pos 65535) port then none else some port

abbrev pub is_empty : List ℕ → Bool
is_empty [] = true
is_empty (c ∷ s) = false

abbrev pub debug_uri : List ℕ
debug_uri = chars "https://atlas-aggr-dev.us-east-1.ieptest.netflix.net/api/v4/update"

abbrev pub with_external : Flags → MainConfig → MainConfig
with_external flags cfg =
    if flags.enable_external
    then record cfg {
      external_enabled = true;
      metatron_dir = flags.metatron_dir;
      uri = cfg.external_uri;
    }
    else cfg

abbrev pub with_uri : Flags → MainConfig → MainConfig
with_uri flags cfg = if is_empty flags.uri then cfg else record cfg { uri = flags.uri }

abbrev pub with_debug : Flags → MainConfig → MainConfig
with_debug flags cfg =
    if flags.debug then record cfg { external_enabled = false; uri = debug_uri } else cfg

abbrev pub with_limits : Flags → MainConfig → MainConfig
with_limits flags cfg = record cfg {
  verbose_http = if flags.verbose_http then true else cfg.verbose_http;
  meter_ttl = flags.meter_ttl;
  frequency = flags.frequency;
  age_gauge_limit = flags.age_gauge_limit;
}

-- The common tags; `none` is the exit for a text that is no tags.
unfoldable pub tags_of : Flags → MainConfig → Option CommonTags
tags_of flags cfg =
    if is_empty flags.common_tags then some cfg.common_tags else parse_common_tags flags.common_tags

abbrev pub without_tags : Flags → MainConfig → MainConfig
without_tags flags cfg =
    if flags.no_common_tags
    then record cfg { common_tags = []; status_metrics_enabled = false }
    else cfg

-- The configuration with all flags, in their order.
abbrev pub apply_flags : Flags → MainConfig → CommonTags → MainConfig
apply_flags flags cfg tags =
    let named = record cfg { process_name = flags.process_name } in
    let limited =
      with_limits flags (with_debug flags (with_uri flags (with_external flags named))) in
    without_tags flags (record limited { common_tags = tags })

-- The part of `main` between the default configuration and the server.
unfoldable pub configure : Flags → MainConfig → Option MainConfig
unfolding tags_of
configure flags cfg = do tags ← tags_of flags cfg; some (apply_flags flags cfg tags)

-- Where metrics go: a debug run to the development backend, else the flag's URI, else the one for external publishing.
unfoldable pub target : Flags → MainConfig → List ℕ
target flags cfg =
    if flags.debug
    then debug_uri
    else if not (is_empty flags.uri)
    then flags.uri
    else if flags.enable_external
    then cfg.external_uri
    else cfg.uri

uri_of :
    (flags : Flags) (cfg : MainConfig) (tags : CommonTags)
    → (apply_flags flags cfg tags).uri ≡ target flags cfg
unfolding target
uri_of flags cfg tags = ground arith

-- The tags that the flag gives: those of the default without a flag, else the map of the tags that are written in it.
abbrev pub Given : Flags → MainConfig → CommonTags → Type 0
Given flags cfg tags =
    ((flags.common_tags ≡ []) × (tags ≡ cfg.common_tags)) ⊎ TagList flags.common_tags tags

is_empty-eq : (s : List ℕ) → is_empty s ≡ true → s ≡ []
is_empty-eq [] h = refl
is_empty-eq (c ∷ s) h = absurd (cc h)

tags_of-Given :
    (flags : Flags) (cfg : MainConfig)
    → ((tags_of flags cfg ≡ none)
        × (is_empty flags.common_tags ≡ false)
        × ((tags : CommonTags) → ¬ TagList flags.common_tags tags))
      ⊎ ((tags : CommonTags) × (tags_of flags cfg ≡ some tags) × Given flags cfg tags)
unfolding tags_of
tags_of-Given flags cfg = elim (Bool-cases (is_empty flags.common_tags)) [
  | inl e ↦ inr (cfg.common_tags, rw e refl, inl (is_empty-eq flags.common_tags e, refl))
  | inr e ↦ elim (parse_common_tags-cases flags.common_tags) [
    | inl (h, wrong) ↦ inl (rw e h, e, wrong)
    | inr (tags, h, written) ↦ inr (tags, rw e h, inr written)
  ]
]

-- What the flags come to. The program exits if the flag of the common tags is there and is not written from tags: keys and
-- values that are not empty, keys without `=`, and no commas. Otherwise metrics go to the target, a debug run never
-- publishes externally, and with `--no_common_tags` there are no common tags and no status metrics, else the tags that
-- the flag gives, or the default without a flag.
pub configure_lem :
    (flags : Flags) (cfg : MainConfig)
    → ((configure flags cfg ≡ none)
        × (is_empty flags.common_tags ≡ false)
        × ((tags : CommonTags) → ¬ TagList flags.common_tags tags))
      ⊎ ((tags : CommonTags) × (done : MainConfig) × Given flags cfg tags
          × (configure flags cfg ≡ some done)
          × (done.uri ≡ target flags cfg)
          × (done.external_enabled
              ≡ (not flags.debug && (flags.enable_external || cfg.external_enabled)))
          × (done.common_tags ≡ (if flags.no_common_tags then [] else tags))
          × (done.status_metrics_enabled
              ≡ (not flags.no_common_tags && cfg.status_metrics_enabled)))
unfolding configure target
configure_lem flags cfg = elim (tags_of-Given flags cfg) [
  | inl (e, there, wrong) ↦ inl (rw e refl, there, wrong)
  | inr (tags, e, given) ↦ inr (
    tags,
    apply_flags flags cfg tags,
    given,
    rw e refl,
    uri_of flags cfg tags,
    ground arith,
    ground arith,
    ground arith,
  )
]
