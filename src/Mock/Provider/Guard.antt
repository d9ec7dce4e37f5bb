-- ===== src/Mock/Provider/Guard.antt =====
-- What the plug-in of mock/provider/provider.go keeps from the mock service.
use gocsi.Base.{
  ℕ, ◌≡◌, ◌⊎◌, inl, inr, refl, ap, ◌∙◌, arith, Bool, true, false, Option, none, some, List, [], ◌∷◌,
  Text, text, All, EqualFold, cut, ◌==◌,
}
use gocsi.Csi.{Version, Request, GetPluginInfoResponse}
use gocsi.Csi.Reflect.{get_version, get_node_id}
use gocsi.Context.{Context, or_else, parse_bool, lookup_environ}
use gocsi.Utils.Versions.{parse_versions}
use gocsi.Utils.Chain.{Handler}
use gocsi.Plugin.{EnvMap, env_bool}
use gocsi.Plugin.EnvVars
use gocsi.Plugin.Env.{init_supported_versions}
use gocsi.Plugin.Env.Precedence.{default_of, forced, lookup_env-init_env_vars}
use gocsi.Plugin.Interceptors.{
  Installed, ready, init_interceptors, with_spec_req, with_spec_rep, spec_opts, read_switches,
  with_all_creds,
}
use gocsi.Plugin.Interceptors.Form.{switches}
use gocsi.Plugin.Interceptors.Laws.{new_spec_validator-Configured}
use gocsi.SpecValidator.{new_spec_validator}
use gocsi.SpecValidator.Requests.Conformance.{HasVersionOf, HasText}
use gocsi.SpecValidator.Handle.Laws.{IsAccepted}
use gocsi.Plugin.Chain.{Ctx, Run, Runtime, serve}
use gocsi.Plugin.Chain.Parts.{IsApart}
use gocsi.Plugin.Chain.Guard.{Refuses, serve-Refuses}
use gocsi.Plugin.Serve.{Setup, variable}
use gocsi.Mock.Provider.{env_vars, new_plugin}

abbrev version : ℕ → ℕ → Version
version major minor = record { major = major; minor = minor; patch = 0 }

-- The versions that the mock plug-in supports.
abbrev pub mock_versions : List Version
mock_versions = version 0 1 ∷ version 0 2 ∷ version 1 0 ∷ version 1 1 ∷ []

-- The names of the variables are in upper case already.
abbrev pub KeepsNames : (Text → Text) → List Text → Type 0
KeepsNames to_upper = All (λ entry. to_upper (cut b'=' entry).0 ≡ (cut b'=' entry).0)

default_of-KeepsNames :
    (to_upper : Text → Text) (k : Text) (entries : List Text)
    → KeepsNames to_upper entries
    → default_of to_upper k entries ≡ default_of (λ t. t) k entries
default_of-KeepsNames to_upper k [] h = refl
default_of-KeepsNames to_upper k (e ∷ es) (h, hs) =
    rw h (rw (default_of-KeepsNames to_upper k es hs) refl)

default_only :
    {a b c : Option Text} (d : Option Text)
    → a ≡ none
    → b ≡ none
    → c ≡ none
    → or_else a (or_else b (or_else c d)) ≡ d
default_only d ea eb ec = rw (ea, eb, ec) refl

forced-eq-none :
    (fold : EqualFold) (penv : Text → Option Text) (to_upper : Text → Text) (ctx : Context EnvMap)
    (entries : List Text) (k : Text)
    → (EnvVars.rep_logging == k) ≡ false
    → (EnvVars.req_logging == k) ≡ false
    → forced fold penv to_upper ctx entries k ≡ none
forced-eq-none fold penv to_upper ctx entries k rep req = ground arith

switches-spec :
    (env : Text → Option Text) → (switches env).spec ≡ env_bool (env EnvVars.spec_validation)
unfolding with_all_creds read_switches
switches-spec env = ground arith

switches-node_id :
    (env : Text → Option Text) → (switches env).node_id ≡ env_bool (env EnvVars.require_node_id)
unfolding with_all_creds read_switches
switches-node_id env = ground arith

-- A request that is to publish or to unpublish a volume at a node, and does not name the node.
abbrev pub LacksNodeId : Request → Type 0
LacksNodeId (Request.controller_publish_volume r) = r.node_id ≡ []
LacksNodeId (Request.controller_unpublish_volume r) = r.node_id ≡ []
LacksNodeId _ = ⊥

LacksNodeId-not-HasText : (req : Request) → LacksNodeId req → ¬ HasText (get_node_id req)
unfolding get_node_id
LacksNodeId-not-HasText (Request.controller_publish_volume r) h = λ has. has h
LacksNodeId-not-HasText (Request.controller_unpublish_volume r) h = λ has. has h
LacksNodeId-not-HasText _ h = absurd h

module _ {U D P S : Type 0} (base : Setup U D P S) (ctx : Context EnvMap)
    (upper : KeepsNames base.to_upper env_vars) where
  -- Neither the context's own list of variables nor the process has a value.
  abbrev pub IsSilent : Text → Type 0
  IsSilent k = (lookup_environ base.fold ctx.environ k ≡ none) × (base.process_env k ≡ none)

  abbrev env : Text → Option Text
  env k = variable (new_plugin base) ctx k

  variable-default_of :
      (k : Text)
      → IsSilent k
      → (EnvVars.rep_logging == k) ≡ false
      → (EnvVars.req_logging == k) ≡ false
      → env k ≡ default_of (λ t. t) k env_vars
  unfolding variable
  variable-default_of k (own, process_none) rep req =
      lookup_env-init_env_vars base.fold base.process_env base.to_upper ctx env_vars k
      ∙ default_only (default_of base.to_upper k env_vars) own
          (forced-eq-none base.fold base.process_env base.to_upper ctx env_vars k rep req)
          process_none
      ∙ default_of-KeepsNames base.to_upper k env_vars upper

  -- The environment says nothing about the variables that the plug-in gives a default.
  abbrev pub IsQuiet : Type 0
  IsQuiet =
      IsSilent EnvVars.spec_req_validation
      × IsSilent EnvVars.spec_validation
      × IsSilent EnvVars.require_node_id
      × IsSilent EnvVars.supported_versions

  module _ (quiet : IsQuiet) where
    env-spec_req : env EnvVars.spec_req_validation ≡ none
    unfolding text cut ◌==◌
    env-spec_req = variable-default_of EnvVars.spec_req_validation quiet.0 refl refl

    env-spec : env EnvVars.spec_validation ≡ some (text "true")
    unfolding text cut ◌==◌
    env-spec = variable-default_of EnvVars.spec_validation quiet.1 refl refl

    env-node_id : env EnvVars.require_node_id ≡ some (text "true")
    unfolding text cut ◌==◌
    env-node_id = variable-default_of EnvVars.require_node_id quiet.2 refl refl

    env-versions : init_supported_versions (env EnvVars.supported_versions) [] ≡ mock_versions
    unfolding text cut ◌==◌ parse_versions init_supported_versions
    env-versions =
        ap (λ o. init_supported_versions o [])
          (variable-default_of EnvVars.supported_versions quiet.3 refl refl)

    spec_on : (switches env).spec ≡ true
    unfolding env_bool parse_bool text ◌==◌
    spec_on = switches-spec env ∙ ap env_bool env-spec

    node_id_on : (switches env).node_id ≡ true
    unfolding env_bool parse_bool text ◌==◌
    node_id_on = switches-node_id env ∙ ap env_bool env-node_id

    spec_req_on : with_spec_req env (switches env) ≡ true
    unfolding with_spec_req
    spec_req_on = rw env-spec_req (rw spec_on refl)

    -- A request whose version is not one of the plug-in's, or that lacks its node ID.
    abbrev pub IsImproper : Request → Type 0
    IsImproper req = (¬ HasVersionOf mock_versions (get_version req)) ⊎ LacksNodeId req

    improper-not-IsAccepted :
        (rep : Bool) (method : Text) (req : Request)
        → IsImproper req
        → ¬ IsAccepted
            (new_spec_validator (spec_opts true rep mock_versions (switches env)))
            method
            req
    improper-not-IsAccepted rep method req bad (version_ok, conforms) =
        let conf = new_spec_validator-Configured true rep mock_versions (switches env) in
        elim bad [
          | inl version_bad ↦ elim version_ok [
            | inl nothing ↦ absurd (cc)
            | inr has ↦ version_bad (rw conf.versions at has)
          ]
          | inr id_bad ↦
              LacksNodeId-not-HasText req id_bad (conforms.node_id (conf.node_id ∙ node_id_on))
        ]

    -- The mock plug-in, where the environment does not say otherwise, refuses every request whose
    -- version is not 0.1.0, 0.2.0, 1.0.0 or 1.1.0, and every ControllerPublishVolume and every
    -- ControllerUnpublishVolume request without a node ID: it never reaches the service, whose part of
    -- the state stays as it was, and the caller gets no reply without an error.
    pub mock_plugin-Refuses :
        {L T : Type 0} (rt : Runtime D P S L) (inner : S → T) (info : GetPluginInfoResponse)
        (installed : List (Installed D P)) (call : Ctx) (req : Request) (method : Text)
        (service : Handler Ctx Request (Run S))
        → IsApart rt inner
        → init_interceptors base.parse_duration base.new_etcd env
            (init_supported_versions (env EnvVars.supported_versions) [])
          ≡ ready installed
        → IsImproper req
        → Refuses inner (serve rt mock_versions info installed call req method service)
    mock_plugin-Refuses rt inner info installed call req method service apart e bad =
        serve-Refuses rt inner mock_versions info base.parse_duration base.new_etcd env installed
          call req method service apart (rw env-versions at e) spec_req_on
          (improper-not-IsAccepted (with_spec_rep env (switches env)) method req bad)
