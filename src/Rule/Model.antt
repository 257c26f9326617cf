-- ===== src/Rule/Model.antt =====
-- The rules as they are configured: src/proxypp/rule/{op,match,config}.h and rule/http/model.{h,cpp}.
use proxypp.Prelude.{ℕ, String, Bool, true, false, Option, none, some, List, str_eq, if◌then◌else◌}

-- rule::Op
pub data Op : Type 0 where
  not_set set add remove replace : Op

pub data Phase : Type 0 where
  not_set request response : Phase

pub data Target : Type 0 where
  not_set header : Target

-- The std::variant of an action's data.
pub data ActionData : Type 0 where
  header_name : String → ActionData
  header_name_value : String → String → ActionData

pub record Action : Type 0 where
  pub op : Op
  pub target : Target
  pub action_data : ActionData

-- rule::Match
pub record Match : Type 0 where
  pub expr : String

pub record Rule : Type 0 where
  pub name : String
  pub enabled : Bool
  pub phase : Phase
  pub match : Option Match
  pub actions : List Action

-- rule::http::Config
pub record HttpConfig : Type 0 where
  pub rules : Option (List Rule)

-- rule::Config
pub record Config : Type 0 where
  pub schema : Option String
  pub version : ℕ
  pub http : Option HttpConfig

-- `none` is the std::invalid_argument that is thrown.
pub phase_from_string : String → Option Phase
phase_from_string value =
    if str_eq value "request"
    then some request
    else if str_eq value "response"
    then some response
    else none

pub target_from_string : String → Option Target
target_from_string value = if str_eq value "header" then some header else none

-- rule.phase == p
abbrev pub phase_eq : Phase → Phase → Bool
phase_eq not_set not_set = true
phase_eq request request = true
phase_eq response response = true
phase_eq _ _ = false
