-- ===== src/Runner/Identity.antt =====
-- runner/identity.go: the id and the address of a runner, from ECS or from its host name.
pub mod Arn
use cli_demo.Prelude.{
  ℕ, String, ◌<>◌, List, [], ◌∷◌, Option, none, some, ◌==◌, nat_eq, string_eq, if◌then◌else◌,
}
use Prim.Native.String
use Prim.Native.Char.{code}
use cli_demo.GoError.{plain}
use cli_demo.Effect.{Result, Eff, pure, raise, lift, ◌>>=◌, wrapping}

pub record Identity : Type 0 where
  pub runner_id : String
  pub private_url : String

-- identityDeps, with encoding/json into ecsTaskMeta and ecsContainerMeta: the ARN of the task, and for
-- each network its addresses.
pub record IdentityDeps (W : Type 0) : Type 0 where
  pub getenv : String → String
  pub hostname : Eff W String
  pub http_get : String → Eff W String
  pub port : String
  pub unmarshal_task : String → Result String
  pub unmarshal_container : String → Result (List (List String))

or_else_after : Option String → ℕ → String → Option String
or_else_after (some r) n s = some r
or_else_after none n s = if n == 47 then some s else none

-- What follows the last `/`, if there is one: strings.LastIndex.
unfoldable pub after_slash : String → Option String
unfolding or_else_after
after_slash String.[] = none
after_slash (String.◌∷◌ c s) = or_else_after (after_slash s) (code c) s

module _ {W : Type 0} (deps : IdentityDeps W) where
  open deps use {getenv, hostname, http_get, port, unmarshal_task, unmarshal_container}

  runner_id_of : String → Option String → Eff W String
  runner_id_of arn none = raise (plain ("invalid TaskARN: " <> arn))
  runner_id_of arn (some id) =
      if id == "" then raise (plain ("invalid TaskARN: " <> arn)) else pure id

  -- The first address of the first network.
  address_of : List (List String) → Eff W String
  address_of [] = raise (plain "no IPv4 address in ECS container metadata")
  address_of ([] ∷ networks) = raise (plain "no IPv4 address in ECS container metadata")
  address_of ((ip ∷ ips) ∷ networks) = pure ip

  unfoldable pub resolve_from_ecs : String → Eff W Identity
  unfolding runner_id_of address_of
  resolve_from_ecs uri = do
    task_body ← wrapping "fetch ECS task metadata" (http_get (uri <> "/task"))
    arn ← wrapping "parse ECS task metadata" (lift (unmarshal_task task_body))
    id ← runner_id_of arn (after_slash arn)
    container_body ← wrapping "fetch ECS container metadata" (http_get uri)
    networks ← wrapping "parse ECS container metadata" (lift (unmarshal_container container_body))
    ip ← address_of networks
    pure (record { runner_id = id; private_url = "http://" <> ip <> ":" <> port })

  unfoldable pub resolve_from_hostname : Eff W Identity
  resolve_from_hostname = do
    host ← wrapping "get hostname" hostname
    pure (record { runner_id = host; private_url = "http://" <> host <> ":" <> port })

  unfoldable pub resolve_identity : Eff W Identity
  resolve_identity =
      let uri = getenv "ECS_CONTAINER_METADATA_URI_V4" in
      if uri == "" then resolve_from_hostname else resolve_from_ecs uri
