-- ===== src/Snapshots/Room.antt =====
-- The rooms, the social state and the results of actions in
-- frontend/src/components/game-websocket-provider.tsx.
use compositions.Prelude.{ℕ, String, Bool, Option, List}
use compositions.Snapshots.Game.{GameMode}

pub record ActiveEmote : Type 0 where
  pub id : String
  pub emoji : String
  pub expires_at : String

pub record Player : Type 0 where
  pub player_id : String
  pub user_id : Option String
  pub session_id : Option String
  pub name : String
  pub image_url : Option String
  pub connected : Bool
  pub seat : ℕ
  pub is_host : Bool
  pub can_reconnect : Bool
  pub forfeited : Bool
  pub active_emote : Option ActiveEmote

pub record EndGameProposal : Type 0 where
  pub id : String
  pub kind : String
  pub proposer_player_id : String
  pub description : Option String
  pub eligible_player_ids : List String
  pub agreed_player_ids : List String
  pub expires_at : String

pub record GameConclusion : Type 0 where
  pub kind : String
  pub winner_player_id : Option String
  pub report_id : Option String

pub record PendingDealChoice : Type 0 where
  pub dealer_index : ℕ
  pub chooser_index : ℕ
  pub chooser_player_id : String

pub record Room : Type 0 where
  pub code : String
  pub phase : String
  pub game_mode : Option GameMode
  pub host_player_id : String
  pub dealer_index : Option ℕ
  pub pending_deal_choice : Option PendingDealChoice
  pub end_proposal : Option EndGameProposal
  pub conclusion : Option GameConclusion
  pub spectator_count : Option ℕ
  pub players : List Player

-- A result of an action, as the server sends it: a field may be missing.
pub record ActionResult : Type 0 where
  pub request_id : Option String
  pub action : Option String
  pub player_id : Option String
  pub ok : Bool

pub record SocialUser : Type 0 where
  pub id : String
  pub name : String
  pub image_url : Option String
  pub online : Bool
  pub game_started_at : Option String

pub record FriendRequest : Type 0 where
  pub id : String
  pub user : SocialUser
  pub created_at : String

pub record GameInvite : Type 0 where
  pub id : String
  pub user : SocialUser
  pub room_code : String
  pub created_at : String
  pub expires_at : String

pub record SocialState : Type 0 where
  pub user_id : String
  pub friends : List SocialUser
  pub incoming_friend_requests : List FriendRequest
  pub outgoing_friend_request_user_ids : List String
  pub game_invites : List GameInvite
