-- ===== src/Social/Pages.antt =====
-- The pages around the social login in orders/backend/social_views.py: the address of the provider,
-- the report of an error and the list of providers; and the last step of the pipeline,
-- `generate_jwt_token` of orders/backend/ipeline.py.
use Prim.Native.String
use python_diplom.Base.{
  ℕ, String, Bool, not, Option, none, some, List, [], ◌∷◌, keep, length, or_default,
}
use python_diplom.Exn.{Result, ok, err, ◌>>=◌}
use python_diplom.Text.{is_empty}
use python_diplom.Models.{User}
use python_diplom.Action.{Response}

-- `reverse`, `build_absolute_uri` and `urlencode`
pub record Urls : Type 0 where
  pub reverse : String → String → Result String
  pub absolute : String → String
  pub urlencode : List (String × String) → String

pub record Redirect : Type 0 where
  pub auth_url : String
  pub backend : String
  pub message : String

pub record Provider : Type 0 where
  pub name : String
  pub backend : String
  pub icon : String
  pub enabled : Bool

pub data Page : Type 0 where
  redirect : Redirect → Page
  error : String → Page
  failure : String → String → String → Page
  providers : List Provider → ℕ → Page

abbrev pub page : ℕ → Page → Response Page
page status body = record { status = status; body = body }

module _ ⦃u : Urls⦄ where
  -- the `try` block of `SocialAuthRedirectView.get`
  pub redirect_to : String → Option String → Result Redirect
  redirect_to backend frontend_redirect = do
    complete ← u.reverse "social:complete" backend
    begin ← u.reverse "social:begin" backend
    ok (record {
      auth_url = u.absolute (
          String.◌++◌ begin (
            String.◌++◌ "?" (
              u.urlencode (
                ("redirect_uri", u.absolute complete)
                ∷ ("frontend_redirect", or_default "/" frontend_redirect)
                ∷ ("backend", backend)
                ∷ []))));
      backend = backend;
      message = String.◌++◌ "Redirect to " (String.◌++◌ backend " for authentication");
    })

  -- `SocialAuthRedirectView.get`
  unfoldable pub get_redirect : String → Option String → Response Page
  unfolding redirect_to
  get_redirect backend frontend_redirect = elim (redirect_to backend frontend_redirect) [
    | ok r ↦ page 200 (redirect r)
    | err e ↦ page 500 (error "Failed to generate auth URL")
  ]

-- `SocialAuthErrorView.get`
unfoldable pub get_error : Option String → Option String → Response Page
get_error message description = page 400 (
    failure (or_default "Unknown error" message) (or_default "" description)
      "Social authentication failed")

-- The keys of the four providers in the settings; a key that is empty counts as false.
pub record ProviderKeys : Type 0 where
  pub google : String
  pub github : String
  pub vk : String
  pub yandex : String

abbrev pub known_providers : ProviderKeys → List Provider
known_providers keys =
    record {
      name = "Google";
      backend = "google-oauth2";
      icon = "google";
      enabled = not (is_empty keys.google);
    }
    ∷ record {
      name = "GitHub";
      backend = "github";
      icon = "github";
      enabled = not (is_empty keys.github);
    }
    ∷ record { name = "VK"; backend = "vk-oauth2"; icon = "vk"; enabled = not (is_empty keys.vk) }
    ∷ record {
      name = "Yandex";
      backend = "yandex";
      icon = "yandex";
      enabled = not (is_empty keys.yandex);
    }
    ∷ []

abbrev pub listed : List Provider → Response Page
listed enabled = page 200 (providers enabled (length enabled))

-- `SocialAuthProvidersView.get`; `settings` is what the attribute `request.settings` gives
unfoldable pub get_providers : Result ProviderKeys → Result (Response Page)
get_providers settings = do
  keys ← settings
  ok (listed (keep (λ (p : Provider). p.enabled) (known_providers keys)))

-- `generate_jwt_token`: the tokens that `RefreshToken.for_user` gives
pub record Tokens : Type 0 where
  pub refresh : String
  pub access : String

pub data Generated : Type 0 where
  nothing : Generated
  generated : User → Tokens → Generated

unfoldable pub generate_jwt_token : (User → Tokens) → Option User → Generated
generate_jwt_token for_user none = nothing
generate_jwt_token for_user (some user) = generated user (for_user user)
