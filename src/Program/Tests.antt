-- ===== src/Program/Tests.antt =====
-- The theorems at a command line for external publishing.
use spectatord.Base.{◌≡◌, ◌⊎◌, refl, [], ◌∷◌, none, some, true, false}
use spectatord.CText.{chars}
use spectatord.Admin.CommonTags.{CommonTags, update_common_tag}
use spectatord.Program.{MainConfig, Flags, configure, is_empty, Given, target, configure_lem}
use spectatord.Program.CommonTagsFlag.Complete.{TagList}
use spectatord.Program.CommonTagsFlag.{parse_common_tags, parse_common_tags-print}

abbrev default : MainConfig
default = record {
  process_name = [];
  external_enabled = false;
  metatron_dir = [];
  uri = chars "http://atlas/publish";
  external_uri = chars "https://atlas/external";
  verbose_http = false;
  meter_ttl = 900;
  frequency = 5;
  age_gauge_limit = 1000;
  common_tags = [];
  status_metrics_enabled = true;
}

abbrev flags : Flags
flags = record {
  process_name = chars "spectatord";
  enable_external = true;
  metatron_dir = chars "/metatron";
  uri = [];
  debug = false;
  verbose_http = false;
  meter_ttl = 900;
  frequency = 5;
  age_gauge_limit = 1000;
  common_tags = chars "nf.app=www,nf.cluster=www-main";
  no_common_tags = false;
}

configure_lem_example :
    ((configure flags default ≡ none)
      × (is_empty flags.common_tags ≡ false)
      × ((tags : CommonTags) → ¬ TagList flags.common_tags tags))
    ⊎ ((tags : CommonTags) × (done : MainConfig) × Given flags default tags
        × (configure flags default ≡ some done)
        × (done.uri ≡ target flags default)
        × (done.external_enabled ≡ true)
        × (done.common_tags ≡ tags)
        × (done.status_metrics_enabled ≡ true))
configure_lem_example = configure_lem flags default

parse_common_tags-print_run :
    parse_common_tags (chars "a=b,a=c") ≡ some ((chars "a", chars "c") ∷ [])
unfolding update_common_tag
parse_common_tags-print_run =
    parse_common_tags-print (chars "a", chars "b") ((chars "a", chars "c") ∷ [])
      (
        ((refl, tt), (refl, (refl, (refl, tt))), refl, refl),
        (((refl, tt), (refl, (refl, (refl, tt))), refl, refl), tt),
      )
