-- ===== src/Runner/Identity/Arn.antt =====
-- runner/identity.go: the runner id that is read from a task's ARN.
use mathlib.Core.Path.{subst}
use Prim.Native.Char.{Char, code, char}
use text.Mathlib.TextLemmas.{nil-append, cons-append}
use text.Mathlib.TextEquality.{Char-path}
use cli_demo.Prelude.{
  String, ◌<>◌, ◌≡◌, refl, sym, ap, inl, inr, Bool-cases, ◌∙◌, Bool, false, ◌||◌, List, [], ◌∷◌,
  Option, none, some, ◌==◌, nat_eq, string_eq, arith,
}
use cli_demo.Effect.{Result, ok, err}
use cli_demo.Effect.Ends.{
  Ends, Post, Any, AnyOf, Ends-pure, Ends-if, Ends-bind, Ends-known, Ends-weaken, Ends-raise,
  Ends-wrapping, Ends-bind_lift,
}
use cli_demo.Runner.Identity.{
  Identity, IdentityDeps, after_slash, or_else_after, resolve_from_ecs, runner_id_of, address_of,
}

abbrev pub has_slash : String → Bool
has_slash String.[] = false
has_slash (String.◌∷◌ c s) = (code c == 47) || has_slash s

-- The text after the last `/` has none, and the text is what stands before it, `/` and that.
abbrev pub IsSplit : String → Option String → Type 0
IsSplit s none = has_slash s ≡ false
IsSplit s (some r) = (has_slash r ≡ false) × ((a : String) × (s ≡ a <> ("/" <> r)))

starts : (c : Char) (s : String) → code c ≡ 47 → String.◌∷◌ c s ≡ "" <> ("/" <> s)
starts c s e =
    ap (λ d. String.◌∷◌ d s) (Char-path c (char 47 tt) e)
    ∙ sym (
        nil-append ("/" <> s)
        ∙ cons-append (char 47 tt) "" s
        ∙ ap (String.◌∷◌ (char 47 tt)) (nil-append s))

or_else_after-IsSplit :
    (c : Char) (s : String) (o : Option String)
    → IsSplit s o
    → IsSplit (String.◌∷◌ c s) (or_else_after o (code c) s)
unfolding or_else_after
or_else_after-IsSplit c s (some r) h =
    (h.0, (String.◌∷◌ c h.1.0, ap (String.◌∷◌ c) h.1.1 ∙ sym (cons-append c h.1.0 ("/" <> r))))
or_else_after-IsSplit c s none h = elim (Bool-cases (code c == 47)) [
  | inl e ↦ rw e (h, ("", starts c s (ground (arith, e))))
  | inr e ↦ rw e (ap (λ b. b || has_slash s) e ∙ h)
]

after_slash-IsSplit : (s : String) → IsSplit s (after_slash s)
unfolding after_slash
after_slash-IsSplit String.[] = refl
after_slash-IsSplit (String.◌∷◌ c s) =
    or_else_after-IsSplit c s (after_slash s) (after_slash-IsSplit s)

module _ {W : Type 0} (deps : IdentityDeps W) where
  abbrev IsName : String → String → Type 0
  IsName arn id =
      ((id == "") ≡ false) × (has_slash id ≡ false) × ((a : String) × (arn ≡ a <> ("/" <> id)))

  -- The answer to the request for the task, which is the first, and to the one for the container, after
  -- it.
  abbrev task_answer : String → W → Result String × W
  task_answer uri w = deps.http_get (uri <> "/task") w

  abbrev container_answer : String → W → Result String × W
  container_answer uri w = deps.http_get uri (task_answer uri w).1

  -- The id is not empty, has no `/`, and is what follows the last `/` of the ARN in the answer for the
  -- task; the address is made of the first address of the first network in the answer for the
  -- container, and the port.
  pub record IsTaskName (uri : String) (w : W) (i : Identity) : Type 0 where
    pub task_body : String
    pub task_answered : (task_answer uri w).0 ≡ ok task_body
    pub arn : String
    pub is_task : deps.unmarshal_task task_body ≡ ok arn
    pub is_name : IsName arn i.runner_id
    pub container_body : String
    pub container_answered : (container_answer uri w).0 ≡ ok container_body
    pub ip : String
    pub ips : List String
    pub networks : List (List String)
    pub is_container : deps.unmarshal_container container_body ≡ ok ((ip ∷ ips) ∷ networks)
    pub is_address : i.private_url ≡ "http://" <> ip <> ":" <> deps.port

  runner_id_of-IsName :
      (arn : String) (o : Option String)
      → IsSplit arn o
      → (P : W → Type 0) → Ends P (runner_id_of deps arn o) (λ id w. IsName arn id × P w) AnyOf
  unfolding runner_id_of
  runner_id_of-IsName arn none h P = Ends-raise _ (λ w p. tt)
  runner_id_of-IsName arn (some id) h P =
      Ends-if (id == "") _ _ (λ e. Ends-raise _ (λ w p. tt))
        (λ full. Ends-pure id (λ w p. ((full, h.0, h.1), p)))

  IsFirst : List (List String) → String → Type 0
  IsFirst networks ip =
      (ips : List String) × ((rest : List (List String)) × (networks ≡ (ip ∷ ips) ∷ rest))

  address_of-IsFirst :
      (networks : List (List String))
      → Ends Any (address_of deps networks) (λ ip w. IsFirst networks ip) AnyOf
  unfolding address_of IsFirst
  address_of-IsFirst [] = Ends-raise _ (λ w p. tt)
  address_of-IsFirst ([] ∷ rest) = Ends-raise _ (λ w p. tt)
  address_of-IsFirst ((ip ∷ ips) ∷ rest) = Ends-pure ip (λ w p. (ips, (rest, refl)))

  module _ (uri : String) (start : W) where
    -- A request from a world, its answer and the world after it.
    http_get-Ends :
        (url : String) (w : W)
        → Ends
            (λ v. v ≡ w)
            (deps.http_get url)
            (λ body v. ((deps.http_get url w).0 ≡ ok body) × (v ≡ (deps.http_get url w).1))
            AnyOf
    http_get-Ends url w = record { at = λ v e. go v e (deps.http_get url v).0 refl }
      where
        go :
            (v : W)
            → v ≡ w
            → (r : Result String) → (deps.http_get url v).0 ≡ r
            → Post
                (λ body u. ((deps.http_get url w).0 ≡ ok body) × (u ≡ (deps.http_get url w).1))
                AnyOf
                r
                (deps.http_get url v).1
        go v e (ok body) h = (
          subst (λ x. (deps.http_get url x).0 ≡ ok body) e h,
          ap (λ x. (deps.http_get url x).1) e,
        )
        go v e (err x) h = tt

    -- The id of a runner that is read from ECS is not empty, has no `/`, and is what follows
    -- the last `/` of the ARN in the answer to the first request, for the URL of the
    -- metadata and `/task`; its address is `http://`, the first address of the first network
    -- in the answer to the second request, for the URL itself, `:` and the port.
    pub resolve_from_ecs-IsTaskName :
        Ends (λ w. w ≡ start) (resolve_from_ecs deps uri) (λ i w. IsTaskName uri start i) AnyOf
    unfolding resolve_from_ecs IsFirst
    resolve_from_ecs-IsTaskName =
        Ends-bind _ _ _ (Ends-wrapping _ _ (http_get-Ends (uri <> "/task") start)) (λ body.
          Ends-known (λ answered.
            Ends-bind_lift "parse ECS task metadata" (deps.unmarshal_task body) _ (λ arn task.
              Ends-bind _ _ (λ id w. IsName arn id × (w ≡ (task_answer uri start).1))
                (runner_id_of-IsName arn (after_slash arn) (after_slash-IsSplit arn) _)
                (λ id. Ends-known (λ named.
                  Ends-bind _ _ _ (Ends-wrapping _ _ (http_get-Ends uri (task_answer uri start).1))
                    (λ container_body. Ends-known (λ container.
                      Ends-bind_lift "parse ECS container metadata"
                        (deps.unmarshal_container container_body) _
                        (λ networks parsed.
                          Ends-bind _ _ (λ ip w. IsFirst networks ip)
                            (Ends-weaken (λ w p. tt) (λ a w q. q) (λ x w q. tt)
                              (address_of-IsFirst networks))
                            (λ ip. Ends-pure _ (λ w first. record {
                              task_body = body;
                              task_answered = answered;
                              arn = arn;
                              is_task = task;
                              is_name = named;
                              container_body = container_body;
                              container_answered = container;
                              ip = ip;
                              ips = first.0;
                              networks = first.1.0;
                              is_container = parsed ∙ ap ok first.1.1;
                              is_address = refl;
                            }))))))))))
