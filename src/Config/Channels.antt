-- ===== src/Config/Channels.antt =====
-- internal/config/config.go: the settings of the channels that notifications go through.
use ycfrp.Base.{String, Bool, List, ℤ, Assoc}

-- `QQNotifierConfig`
pub record QqNotifierConfig : Type 0 where
  pub enable : Bool
  pub protocol : String
  pub host : String
  pub port : ℤ
  pub access_token : String
  pub admin_qq : String
  pub group_ids : List String
  pub push_enable : Bool

-- `DiscoveredOpenID`
pub record DiscoveredOpenId : Type 0 where
  pub group_open_id : String
  pub user_open_id : String
  pub kind : String
  pub msg_id : String
  pub at : String

-- `QQOfficialConfig`
pub record QqOfficialConfig : Type 0 where
  pub enable : Bool
  pub app_id : String
  pub app_secret : String
  pub sandbox : Bool
  pub group_open_ids : String
  pub user_open_id : String
  pub msg_id : String
  pub proxy : String
  pub listen : Bool
  pub discovered : List DiscoveredOpenId

-- `WeComConfig`
pub record WeComConfig : Type 0 where
  pub enable : Bool
  pub key : String
  pub mention_list : String
  pub mention_all : Bool

-- `DingTalkConfig`
pub record DingTalkConfig : Type 0 where
  pub enable : Bool
  pub webhook : String
  pub secret : String
  pub at_mobiles : String
  pub at_all : Bool

-- `FeishuConfig`
pub record FeishuConfig : Type 0 where
  pub enable : Bool
  pub webhook : String
  pub secret : String

-- `ServerChanConfig`
pub record ServerChanConfig : Type 0 where
  pub enable : Bool
  pub send_key : String
  pub channel : String

-- `BarkConfig`
pub record BarkConfig : Type 0 where
  pub enable : Bool
  pub server : String
  pub device_key : String
  pub sound : String
  pub group : String

-- `TelegramConfig`
pub record TelegramConfig : Type 0 where
  pub enable : Bool
  pub bot_token : String
  pub chat_id : String
  pub proxy : String

-- `NotifyChannel`
pub record NotifyChannel : Type 0 where
  pub id : String
  pub name : String
  pub type : String
  pub enable : Bool
  pub url : String
  pub secret : String
  pub headers : Assoc String
