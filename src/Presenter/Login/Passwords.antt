-- ===== src/Presenter/Login/Passwords.antt =====
-- presenter/cmd/login/main.go: who gets a session.
use cli_demo.Prelude.{
  ℕ, String, ◌≡◌, refl, ap, ◌∙◌, ◌⊎◌, inl, inr, not, List, [], ◌∷◌, ◌++◌, Option, none, some, ◌==◌,
  string_eq, eq_iff,
}
use cli_demo.Effect.{Result, ok, err, Eff, pure, or_return}
use cli_demo.Effect.Ends.{
  Ends, Post, Ends-pure, Ends-if, Ends-or_return, Ends-or_return_lift, Ends-keeps,
}
use cli_demo.Effect.Keeps.{Keeps, keeps_rules}
use cli_demo.Presenter.Login.{
  Request, Response, Login, internal_server_error, slide_auth, respond, generate_token,
  request_cookie_value, get_headers, handle_get, with_hash, with_secret, handle_post, handle,
}

-- The tokens of the sessions that were created: only Create adds one, which one that fails may have
-- done too.
pub record IsRecorded {W : Type 0} (l : Login W) (created : W → List String) : Type 0 where
  pub creates :
      (token : String) (ts : List String)
      → Ends
          (λ w. created w ≡ ts)
          (l.create token)
          (λ _ w. created w ≡ ts ++ token ∷ [])
          (λ _ w. (created w ≡ ts) ⊎ (created w ≡ ts ++ token ∷ []))
  pub secret_keeps : (ts : List String) → Keeps (λ w. created w ≡ ts) l.get_secret_value
  pub valid_keeps :
      (ts : List String) (token : String) → Keeps (λ w. created w ≡ ts) (l.is_valid token)
  pub random_keeps : (ts : List String) (n : ℕ) → Keeps (λ w. created w ≡ ts) (l.read_full n)

module _ {W : Type 0} (l : Login W) (created : W → List String) (law : IsRecorded l created)
    (req : Request) (ts : List String) where
  -- A POST whose password has the hash that the secret store gave.
  abbrev pub IsAuthenticated : Type 0
  IsAuthenticated =
      (req.method ≡ "POST")
      × ((password : String) × (hash : String) × (l.json_unmarshal req.body ≡ ok password)
          × ((w : W) × ((l.get_secret_value w).0 ≡ ok (some hash)))
          × (l.compare_hash hash password ≡ ok tt))

  -- A new session and its cookie.
  abbrev pub IsLogin : Response → W → Type 0
  IsLogin r w =
      (r.status_code ≡ 302)
      × ((token : String) × (r.cookies ≡ slide_auth token ∷ []) × (created w ≡ ts ++ token ∷ []))
      × IsAuthenticated

  -- No cookie; a new session is there only if Create failed after it was written.
  abbrev pub IsRefusal : Response → W → Type 0
  IsRefusal r w =
      (r.cookies ≡ [])
      × ((created w ≡ ts) ⊎ (((token : String) × (created w ≡ ts ++ token ∷ [])) × IsAuthenticated))

  abbrev pub IsAnswered : Response → W → Type 0
  IsAnswered r w = IsLogin r w ⊎ IsRefusal r w

  abbrev Before : W → Type 0
  Before w = created w ≡ ts

  Answers : Eff W Response → Type 0
  Answers f = Ends Before f IsAnswered (λ e w. ⊥)

  respond-Answers :
      (n : ℕ) (hs : List (String × String)) (body : String) → Answers (respond n hs body)
  unfolding Answers respond
  respond-Answers n hs body = Ends-pure _ (λ w p. inr (refl, inl p))

  created-Answers :
      IsAuthenticated
      → (token : String)
      → Answers (
          or_return
            (l.create token)
            (λ e. respond 500 [] internal_server_error)
            (λ _. pure (record {
              status_code = 302;
              headers = ("Location", "/") ∷ [];
              body = "";
              cookies = slide_auth token ∷ [];
            })))
  unfolding Answers respond
  created-Answers auth token =
      Ends-or_return _ _ _ _ _ (law.creates token ts)
        (λ e. Ends-pure _ (λ w p. inr (refl, wrote w p)))
        (λ _. Ends-pure _ (λ w p. inl (refl, (token, refl, p), auth)))
    where
      wrote :
          (w : W)
          → (created w ≡ ts) ⊎ (created w ≡ ts ++ token ∷ [])
          → (created w ≡ ts) ⊎ (((t : String) × (created w ≡ ts ++ t ∷ [])) × IsAuthenticated)
      wrote w (inl e) = inl e
      wrote w (inr e) = inr ((token, e), auth)

  generate_token-keeps : Keeps Before (generate_token l)
  unfolding generate_token
  generate_token-keeps = search (keeps_rules, law.random_keeps)

  with_hash-Answers :
      (password hash : String)
      → (l.compare_hash hash password ≡ ok tt → IsAuthenticated)
      → Answers (with_hash l password hash)
  unfolding Answers with_hash
  with_hash-Answers password hash auth =
      Ends-or_return_lift (l.compare_hash hash password) _ _
        (λ e same. search (Ends-if, respond-Answers))
        (λ u same.
          Ends-or_return _ _ _ _ _ (Ends-keeps _ generate_token-keeps)
            (λ e. respond-Answers 500 [] _) (λ token. created-Answers (auth same) token))

  secret-Ends :
      Ends Before l.get_secret_value
        (λ o w. Before w × ((w' : W) × ((l.get_secret_value w').0 ≡ ok o)))
        (λ e. Before)
  secret-Ends = record {
    at = λ w p. go w (l.get_secret_value w).0 refl ((law.secret_keeps ts).at w p);
  }
    where
      go :
          (w : W) (r : Result (Option String))
          → (l.get_secret_value w).0 ≡ r
          → Before (l.get_secret_value w).1
          → Post
              (λ o w. Before w × ((w' : W) × ((l.get_secret_value w').0 ≡ ok o)))
              (λ e. Before)
              r
              (l.get_secret_value w).1
      go w (ok o) e h = (h, (w, e))
      go w (err x) e h = h

  with_secret-Answers :
      (password : String) (o : Option String)
      → ((hash : String) → o ≡ some hash → l.compare_hash hash password ≡ ok tt → IsAuthenticated)
      → Answers (with_secret l password o)
  unfolding Answers with_secret
  with_secret-Answers password none auth = respond-Answers 500 [] _
  with_secret-Answers password (some hash) auth =
      Ends-if (hash == "") _ _ (λ m. respond-Answers 500 [] _)
        (λ m. with_hash-Answers password hash (auth hash refl))

  handle_post-Answers : req.method ≡ "POST" → Answers (handle_post l req)
  unfolding Answers handle_post
  handle_post-Answers post =
      Ends-or_return_lift (l.json_unmarshal req.body) _ _ (λ e same. respond-Answers 400 [] _)
        (λ password same.
          Ends-or_return _ _ _ _ _ secret-Ends (λ e. respond-Answers 500 [] _)
            (λ o. record {
              at = λ w p.
                  (with_secret-Answers password o (λ hash is_hash matches.
                      (post, (password, hash, same, (p.1.0, p.1.1 ∙ ap ok is_hash), matches)))).at
                    w p.0;
            }))

  handle_get-Answers : Answers (handle_get l req)
  unfolding Answers handle_get
  handle_get-Answers =
      Ends-if (request_cookie_value l req.cookies "slide_auth" == "") _ _
        (λ empty. respond-Answers 401 _ _)
        (λ full.
          Ends-or_return (l.is_valid (request_cookie_value l req.cookies "slide_auth")) _ _ _ _
            (Ends-keeps _ (law.valid_keeps ts _)) (λ e. respond-Answers 500 get_headers _)
            (λ valid.
              Ends-if (not valid) _ _ (λ invalid. respond-Answers 401 get_headers _)
                (λ is_valid.
                  Ends-or_return_lift (l.json_marshal (("status", "authenticated") ∷ [])) _ _
                    (λ e same. respond-Answers 500 get_headers _)
                    (λ body same. respond-Answers 200 get_headers body))))

  -- The login function answers with the cookie of a new session, status 302, only to a POST
  -- whose password matches the hash that the secret store gave, and the session with the
  -- cookie's token is then there. Any other answer sets no cookie, and no session was made,
  -- unless Create failed after it wrote one for a password that matches. Only Create makes
  -- sessions.
  pub handle-IsAnswered : Ends (λ w. created w ≡ ts) (handle l req) IsAnswered (λ e w. ⊥)
  unfolding handle Answers
  handle-IsAnswered =
      Ends-if (req.method == "GET") _ _ (λ get. handle_get-Answers)
        (λ other.
          Ends-if (req.method == "POST") _ _
            (λ post. handle_post-Answers ((eq_iff req.method "POST").0 post))
            (λ neither. respond-Answers 405 [] _))
