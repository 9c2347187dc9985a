-- ===== src/Agent/States.antt =====
-- src/runtime/app_server_runtime.py: what is concluded from the answers of the agent's server. The state of the server
-- is CodexServerState of src/core/models.py; update_codex_auth_state is of src/runtime/service.py.
use tele_cli.Prelude.{
  ℕ, String, Bool, true, false, not, ◌&&◌, ◌||◌, Option, none, some, ◌==◌, string_eq, if◌then◌else◌,
}
use tele_cli.Agent.Json.{
  Json, null, boolean, text, object, Fields, end, truthy, or_else, get, put, set_default, fields_of,
  is_object, is_filled_text, is_true, lower_equals,
}

-- A field that is None or what the server answers is a Json.
pub record CodexServerState : Type 0 where
  pub transport : String
  pub initialized : Bool
  pub protocol_version : Json
  pub account_status : Json
  pub account_type : Json
  pub auth_required : Bool
  pub login_type : Json
  pub login_url : Json
  pub pid : Option ℕ
  pub capabilities : Json
  pub last_error : Option String
  pub updated_at : String

-- CodexServerState(transport, initialized), the other fields as they default
unfoldable pub new_server_state : (now transport : String) → (initialized : Bool) → CodexServerState
new_server_state now transport initialized = record {
  transport = transport;
  initialized = initialized;
  protocol_version = null;
  account_status = null;
  account_type = null;
  auth_required = false;
  login_type = null;
  login_url = null;
  pid = none;
  capabilities = object end;
  last_error = none;
  updated_at = now;
}

unfoldable pub normalize_initialize_result : Fields → Fields
unfolding get put set_default fields_of is_filled_text
normalize_initialize_result result =
    let capabilities = fields_of (get "capabilities" result) in
    if is_filled_text (get "userAgent" result)
    then put "capabilities" (object (set_default "threads" (boolean true) capabilities))
        (set_default "protocolVersion" (text "user-agent-only") result)
    else put "capabilities" (object capabilities) result

-- validate_initialize_result: the text of its RuntimeError
unfoldable pub validate_initialize_result : Fields → Option String
unfolding normalize_initialize_result get is_filled_text is_object fields_of truthy
validate_initialize_result result =
    let normalized = normalize_initialize_result result in
    let capabilities = get "capabilities" normalized in
    if not (is_filled_text (get "protocolVersion" normalized))
    then some "App server did not report a usable protocol version."
    else if not (is_object capabilities)
    then some "App server did not report capabilities."
    else if not (truthy (get "threads" (fields_of capabilities)))
    then some "App server does not support thread lifecycle operations."
    else none

unfoldable pub derive_codex_state : (account : Fields) → String
unfolding get is_object fields_of truthy is_true or_else lower_equals
derive_codex_state account =
    let info = fields_of (get "account" account) in
    let status = or_else (get "status" account) (get "state" account) in
    if is_object (get "account" account)
      && (truthy (get "accountType" info)
          || truthy (get "type" info)
          || truthy (get "accountType" account)
          || truthy (get "type" account))
    then "RUNNING"
    else if is_true (get "requiresOpenaiAuth" account)
    then "AUTH_REQUIRED"
    else if lower_equals status "auth_required"
        || lower_equals status "login_required"
        || lower_equals status "expired"
    then "AUTH_REQUIRED"
    else "RUNNING"

-- build_codex_server_state, with no pid and no error; without a login its dict is empty
unfoldable pub build_codex_server_state :
    (now transport : String) → (initialize account login : Fields) → CodexServerState
unfolding new_server_state get fields_of or_else derive_codex_state
build_codex_server_state now transport initialize account login =
    let info = fields_of (get "account" account) in
    record (new_server_state now transport true) {
      protocol_version = get "protocolVersion" initialize;
      account_status = or_else (get "status" account) (get "state" account);
      account_type =
          or_else (get "accountType" account)
            (or_else (get "type" account) (or_else (get "accountType" info) (get "type" info)));
      auth_required = derive_codex_state account == "AUTH_REQUIRED";
      login_type = or_else (get "type" login) (get "loginType" login);
      login_url = or_else (get "url" login) (or_else (get "authUrl" login) (get "loginUrl" login));
      capabilities = or_else (get "capabilities" initialize) (object end);
    }

-- build_failed_codex_server_state
unfoldable pub build_failed_codex_server_state :
    (now transport last_error : String) → CodexServerState
unfolding new_server_state
build_failed_codex_server_state now transport last_error =
    record (new_server_state now transport false) { last_error = some last_error }

-- next_state of update_codex_auth_state
unfoldable pub next_auth_state : (payload : Fields) → String
unfolding derive_codex_state get is_true
next_auth_state payload =
    let derived = derive_codex_state payload in
    if is_true (get "success" payload) && derived == "AUTH_REQUIRED" then "RUNNING" else derived

-- what update_codex_auth_state saves over the state that is stored
unfoldable pub authorized_state :
    (now : String) → Option CodexServerState → (payload : Fields) → CodexServerState
unfolding new_server_state next_auth_state get fields_of or_else
authorized_state now stored payload =
    let persisted : CodexServerState = elim stored [
      | none ↦ new_server_state now "stdio://" true
      | some st ↦ st
    ] in
    let info = fields_of (get "account" payload) in
    let next = next_auth_state payload in
    let required = next == "AUTH_REQUIRED" in
    record persisted {
      account_status =
          or_else (get "status" payload)
            (or_else (get "state" payload) (if next == "RUNNING" then text "ready" else null));
      account_type = or_else (get "accountType" payload) (
          or_else (get "type" payload) (
            or_else (get "authMode" payload) (or_else (get "accountType" info) (get "type" info))));
      auth_required = required;
      login_url = if required then persisted.login_url else null;
      login_type = if required then persisted.login_type else null;
    }
