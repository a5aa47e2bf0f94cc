-- ===== src/Runtime/Adapter.antt =====
-- The adapters of atsuite/runtime.py and their clients. The clients of atsuite/faas and atsuite/mcp,
-- which speak to the network, are a parameter: what they are made from, what they answer and how they
-- change.
use atsuite.Base.{
  String, Bool, Option, none, some, [], ◌∷◌, true, false, string_eq, ◌==◌, ◌||◌, if◌then◌else◌,
}
use atsuite.Base.Dict.{Dict, get, get_or, put}
use atsuite.Base.Int.{ℤ}
use atsuite.Base.Json.{bool, str, Fields, end, field}
use atsuite.Base.Text.{◌&◌, is_empty, fold_case}
use atsuite.Result.{Result, ok, err, ◌>>=◌, value_error}
use atsuite.Runtime.{
  RuntimeCapabilities, RuntimeTarget, RuntimeSession, InvocationRequest, InvocationResult, connect,
}

-- What a client's `invoke` does: it raises, with the text of the exception, or it answers with a
-- request id, which may be missing, and whether the tool is stateful.
pub data Reply : Type 0 where
  raised : String → Reply
  answered : Option String → Bool → Reply

-- The clients, and `in` on texts. An exception of `initialize` is its text.
pub record Clients : Type 1 where
  pub Client : Type 0
  pub function_client : String → Client
  pub mcp_client : String → String → Client
  pub agent_core_client : String → Client
  pub session_id : Client → String
  pub initialized : Client → Bool
  pub initialize : Client → Client × Result (Option String)
  pub call : Client → String → Fields → Option String → Client × Reply
  pub contains : String → String → Bool

pub data AdapterKind : Type 0 where
  function_adapter : AdapterKind
  mcp_adapter : AdapterKind
  gateway_adapter : AdapterKind

-- The tables of providers in `capabilities`.
abbrev function_observability : Dict String String
function_observability =
    ("ali_fc", "ali_sls")
    ∷ ("aws_lambda", "aws_lambda_cloudwatch")
    ∷ ("gcp_faas", "gcp_cloud_logging")
    ∷ []

abbrev mcp_observability : Dict String String
mcp_observability =
    ("ali_agentrun", "ali_sls")
    ∷ ("aws_agentcore", "aws_agentcore_cloudwatch")
    ∷ ("gcp_mcp", "gcp_cloud_logging")
    ∷ []

abbrev session_capabilities : String → RuntimeCapabilities
session_capabilities observability = record {
  family = "session";
  requires_open_session = true;
  platform_handles_state_concurrency = true;
  supports_external_state_ops = false;
  observability = observability;
}

-- `capabilities` of the three adapters
unfoldable pub capabilities : AdapterKind → String → RuntimeCapabilities
unfolding get
capabilities function_adapter provider = record {
  family = "faas";
  requires_open_session = false;
  platform_handles_state_concurrency = false;
  supports_external_state_ops = true;
  observability = get_or function_observability provider provider;
}
capabilities mcp_adapter provider =
    session_capabilities (get_or mcp_observability provider provider)
capabilities gateway_adapter provider = session_capabilities "mcp_gateway"

-- create_runtime_adapter: the class, and the provider that it is given
unfoldable pub create_runtime_adapter : String → String → Result (AdapterKind × String)
unfolding fold_case
create_runtime_adapter provider family =
    let provider_key = fold_case provider in
    let family_key = fold_case family in
    if provider_key == "mcp_gateway"
    then ok (gateway_adapter, provider_key)
    else if family_key == "faas"
    then ok (function_adapter, provider_key)
    else if family_key == "session" || family_key == "mcp_serverless"
    then ok (mcp_adapter, provider_key)
    else err (value_error ("Unsupported runtime family: " & family))

module _ (c : Clients) where
  open c use {Client}

  pub record Adapter : Type 0 where
    pub kind : AdapterKind
    pub provider : String
    pub targets : Dict String RuntimeTarget
    pub clients : Dict String Client

  -- `connect` of an adapter
  unfoldable pub connect_adapter : Fields → Adapter → Result Adapter
  unfolding ◌>>=◌ capabilities
  connect_adapter endpoint_map a = do
    targets ← connect (capabilities a.kind a.provider).family endpoint_map
    ok (record a { targets = targets })

  -- `_target`
  unfoldable pub target_of : Adapter → String → Result RuntimeTarget
  unfolding get
  target_of a target_id = elim (get a.targets target_id) [
    | none ↦ err (value_error ("Missing endpoint for target: " & target_id))
    | some t ↦ ok t
  ]

  -- The key of a client, and the client that is made where there is none.
  unfoldable pub client_key : AdapterKind → String → String → String
  client_key function_adapter target_id uid = target_id
  client_key kind target_id uid = target_id & ":" & uid

  unfoldable pub new_client : AdapterKind → String → RuntimeTarget → String → Client
  new_client function_adapter provider target uid = c.function_client target.endpoint
  new_client kind provider target uid =
      if c.contains "bedrock-agentcore" target.endpoint || provider == "aws_agentcore"
      then c.agent_core_client target.endpoint
      else c.mcp_client target.endpoint uid

  -- `_client`: the client, which is stored from then on
  unfoldable pub client_for : Adapter → RuntimeTarget → String → Client
  unfolding get client_key new_client
  client_for a target uid =
      get_or a.clients (client_key a.kind target.target_id uid)
        (new_client a.kind a.provider target uid)

  unfoldable pub store_client : Adapter → RuntimeTarget → String → Client → Adapter
  unfolding put client_key
  store_client a target uid client = record a {
    clients = put a.clients (client_key a.kind target.target_id uid) client;
  }

  unfoldable pub session_of : RuntimeTarget → String → Client → Option String → RuntimeSession
  session_of target uid client request = record {
    uid = uid;
    target_id = target.target_id;
    provider_session_id = c.session_id client;
    metadata = field "initialize_request_id" (str (elim request [ none ↦ "" | some r ↦ r ])) end;
  }

  -- MCPRuntimeAdapter.open_session: a client is initialized at its first session
  unfoldable pub open_mcp_session :
      Adapter → RuntimeTarget → String → Adapter × Result RuntimeSession
  unfolding client_for store_client session_of
  open_mcp_session a target uid =
      let client = client_for a target uid in
      if c.initialized client
      then (store_client a target uid client, ok (session_of target uid client none))
      else let opened = c.initialize client in
        (
          store_client a target uid opened.0,
          elim opened.1 [
            | err e ↦ err e
            | ok request ↦ ok (session_of target uid opened.0 request)
          ],
        )

  -- `open_session` of the three adapters
  unfoldable pub open_session : Adapter → RuntimeTarget → String → Adapter × Result RuntimeSession
  unfolding open_mcp_session
  open_session a target uid = elim a.kind [
    | function_adapter ↦ (
      a,
      ok (record {
        uid = uid;
        target_id = target.target_id;
        provider_session_id = "";
        metadata = end;
      }),
    )
    | _ ↦ open_mcp_session a target uid
  ]

  -- The metadata of an answer.
  unfoldable pub reply_metadata : AdapterKind → Client → Bool → Fields
  reply_metadata function_adapter client is_stateful = field "is_stateful" (bool is_stateful) end
  reply_metadata kind client is_stateful = field "session_id" (str (c.session_id client)) end

  unfoldable pub result_of : AdapterKind → Client → ℤ → Reply → InvocationResult
  unfolding reply_metadata
  result_of kind client elapsed_ms (raised text) = record {
    provider_request_id = "";
    status = "error";
    error = text;
    client_elapsed_ms = elapsed_ms;
    provider_metadata = end;
  }
  result_of kind client elapsed_ms (answered request is_stateful) = record {
    provider_request_id = elim request [ none ↦ "" | some r ↦ r ];
    status = "ok";
    error = "";
    client_elapsed_ms = elapsed_ms;
    provider_metadata = reply_metadata kind client is_stateful;
  }

  -- `request.call_id or None`
  abbrev call_id_or_none : String → Option String
  call_id_or_none call_id = if is_empty call_id then none else some call_id

  -- `invoke` of the adapters, which takes the given time
  unfoldable pub invoke : ℤ → InvocationRequest → Adapter → Result (Adapter × InvocationResult)
  unfolding ◌>>=◌ target_of client_for store_client result_of
  invoke elapsed_ms request a = do
    target ← target_of a request.target_id
    let called =
        c.call (client_for a target request.uid) request.tool_name request.args
          (call_id_or_none request.call_id)
    ok (store_client a target request.uid called.0, result_of a.kind called.0 elapsed_ms called.1)
