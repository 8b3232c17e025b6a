-- ===== src/Admin/Access.antt =====
-- Requests whose `Host` header names this machine nowhere. The header is the client's own choice.
use spectatord.Base.{ℕ, ◌≡◌, refl, List, Bool, true, false, ◌&&◌, if◌then◌else◌}
use spectatord.CText.{chars, text_eq}
use spectatord.Float.{Float}
use spectatord.Registry.{Registry}
use spectatord.Admin.{
  HttpRequest, HttpAnswer, handle_request, localhost_found, starts_with, bad_request,
}
use spectatord.Admin.CommonTags.{Json}

module _ (F : Float) where
  guarded :
      (r : Registry F) (b : Bool) (changed : Registry F × HttpAnswer)
      → b ≡ false
      → (if b then changed else (r, bad_request)).0 ≡ r
  guarded r b changed h = rw h refl

  pick :
      {A : Type 0} (x : A) (b : Bool) (p q : A × HttpAnswer)
      → p.0 ≡ x
      → q.0 ≡ x
      → (if b then p else q).0 ≡ x
  pick x true p q hp hq = hp
  pick x false p q hp hq = hq

  -- No request whose host names this machine nowhere changes the registry.
  pub handle_request-remote :
      (parse : List ℕ → Json) (allowed_tags : List (List ℕ)) (r : Registry F) (req : HttpRequest)
      → localhost_found req.host ≡ false
      → (handle_request F parse allowed_tags r req).0 ≡ r
  unfolding handle_request
  handle_request-remote parse allowed_tags r req h =
      let get = text_eq req.method (chars "GET") in
      let post = text_eq req.method (chars "POST") in
      let delete = text_eq req.method (chars "DELETE") in
      pick r (text_eq req.uri (chars "/") && get) _ _ refl (
        pick r (text_eq req.uri (chars "/config") && get) _ _ refl (
          pick r (text_eq req.uri (chars "/config/common_tags") && get) _ _ refl (
            pick r (text_eq req.uri (chars "/config/common_tags") && post) _ _ (guarded r _ _ h) (
              pick r (text_eq req.uri (chars "/metrics") && get) _ _ refl (
                pick r (starts_with (chars "/metrics/A") req.uri && delete) _ _ (guarded r _ _ h) (
                  pick r (starts_with (chars "/metrics/g") req.uri && delete) _ _ (guarded r _ _ h)
                    refl))))))
