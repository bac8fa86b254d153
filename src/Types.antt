-- ===== src/Types.antt =====
-- The objects that the web client passes around and stores. A property that may be missing is an
-- `Option`; a flag that is only tested for its truth value is a `Bool`.
use coop_messenger.Prelude.{ℕ, String, Bool, Option, List}

pub record Action : Type 0 where
  pub id : String
  pub action : String
  pub label : String
  pub url : String
  pub clear : Bool
  pub method : Option String
  pub headers : Option (List (String × String))
  pub body : Option String
  pub value : Option String
  pub progress : Option ℕ
  pub error : Option String

pub record Attachment : Type 0 where
  pub name : Option String
  pub type : Option String
  pub url : Option String

-- A message as the server sends it and, with the last three properties, as it is stored.
-- `sequence_id` is the server's name of the sequence, `stored_sequence_id` is `sequenceId`.
pub record Message : Type 0 where
  pub id : String
  pub event : String
  pub time : ℕ
  pub topic : String
  pub sequence_id : Option String
  pub sender : Option String
  pub priority : Option ℕ
  pub title : Option String
  pub message : Option String
  pub tags : Option (List String)
  pub click : Option String
  pub attachment : Option Attachment
  pub actions : Option (List Action)
  pub stored_sequence_id : Option String
  pub subscription_id : Option String
  pub new : Option ℕ

pub record Reservation : Type 0 where
  pub topic : String
  pub everyone : String

pub record Subscription : Type 0 where
  pub id : String
  pub base_url : String
  pub topic : String
  pub muted_until : ℕ
  pub last : Option String
  pub internal : Bool
  pub display_name : Option String
  pub reservation : Option Reservation
  pub state : Option String

pub record User : Type 0 where
  pub base_url : String
  pub username : String
  pub password : Option String
  pub token : Option String

pub data PrefValue : Type 0 where
  text : String → PrefValue
  flag : Bool → PrefValue

pub record Pref : Type 0 where
  pub key : String
  pub value : PrefValue

-- The part of web/public/config.js that the client reads.
pub record Config : Type 0 where
  pub base_url : String
  pub disallowed_topics : List String

-- What `localStorage` holds of the session: the keys "user" and "token".
pub record Session : Type 0 where
  pub username : Option String
  pub token : Option String
