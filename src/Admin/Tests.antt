-- ===== src/Admin/Tests.antt =====
-- The theorems at requests.
use spectatord.Base.{ℕ, ◌≡◌, ◌⊎◌, refl, List, [], ◌∷◌, Option, some, true, false}
use spectatord.CText.{chars}
use spectatord.Float.Fixed.{fixed}
use spectatord.Tags.{empty_tags, copy}
use spectatord.Id.{make_id, add, intern_str}
use spectatord.HttpClient.Tests.{registry}
use spectatord.Admin.{HttpRequest, handle_request, localhost_found}
use spectatord.Admin.CommonTags.{Json, CommonTags, set_common_tags, lookup}
use spectatord.Admin.CommonTags.Laws.{Settable, Refuses, posted, lookup-set_common_tags}
use spectatord.Admin.MeterName.{parse_id, parse_id-print_tags}
use spectatord.Admin.Access.{handle_request-remote}

abbrev allowed : List (List ℕ)
allowed = chars "mantisUser" ∷ chars "mantisJobId" ∷ []

abbrev entries : List (List ℕ × Option (List ℕ))
entries = (chars "mantisUser", some (chars "")) ∷ (chars "mantisJobId", some (chars "x")) ∷ []

abbrev old : CommonTags
old = (chars "mantisUser", chars "me") ∷ (chars "nf.app", chars "www") ∷ []

abbrev done : CommonTags × ℕ × List ℕ
done = set_common_tags allowed old (Json.object entries)

lookup-set_common_tags_example :
    (Settable allowed entries
      × (done.1 ≡ 200)
      × (lookup done.0 (chars "mantisUser")
          ≡ posted (chars "mantisUser") entries (lookup old (chars "mantisUser"))))
    ⊎ ((message : List ℕ) × Refuses allowed entries message
        × (¬ Settable allowed entries)
        × (done ≡ (old, 400, message)))
lookup-set_common_tags_example = lookup-set_common_tags allowed old entries (chars "mantisUser")

parse_id-print_tags_example :
    parse_id (chars "load,id=a=b,x=y")
    ≡ make_id
        (intern_str (chars "load"))
        (copy (add (add empty_tags (chars "id") (chars "a=b")) (chars "x") (chars "y")))
parse_id-print_tags_example =
    parse_id-print_tags (chars "load") (chars "id", chars "a=b") ((chars "x", chars "y") ∷ [])
      (refl, (refl, (refl, (refl, tt))))
      ((refl, (refl, tt)), (refl, (refl, (refl, tt))), ((refl, tt), (refl, tt), tt))

abbrev remote : HttpRequest
remote = record {
  method = chars "DELETE";
  uri = chars "/metrics/g/load";
  host = chars "10.0.0.1";
  body = [];
}

remote_found : localhost_found remote.host ≡ false
unfolding localhost_found
remote_found = refl

handle_request-remote_example :
    (handle_request fixed (λ body. Json.parse_error) allowed registry remote).0 ≡ registry
handle_request-remote_example =
    handle_request-remote fixed (λ body. Json.parse_error) allowed registry remote remote_found

-- Another machine may have a name in which `localhost` occurs.
localhost_found_elsewhere : localhost_found (chars "localhost.example.org") ≡ true
unfolding localhost_found
localhost_found_elsewhere = refl
