-- ===== src/Model/Records.antt =====
-- The records of ippop/api/model with the fields that structToMap and mapToStruct see, and the
-- Redis keys, ippop/api/model/user.go, node.go and reidskey.go.
use titan_tunnel.Prelude.{
  ℕ, zero, suc, List, [], ◌∷◌, ◌++◌, GoString, codes, Bool, true, false, ◌≡◌, refl,
}
use titan_tunnel.Model.StructMap.{FieldValue, str, bool, int, StructField}

-- An int or int64 is its 64-bit pattern.
pub record User : Type 0 where
  pub user_name : GoString
  pub password_md5 : GoString
  pub start_time : ℕ
  pub end_time : ℕ
  pub total_traffic : ℕ
  pub current_traffic : ℕ
  pub route_mode : ℕ
  pub route_node_id : GoString
  pub update_route_intervals : ℕ
  pub update_route_time : ℕ
  pub off : Bool
  pub upload_rate_limit : ℕ
  pub download_rate_limit : ℕ

pub record Node : Type 0 where
  pub id : GoString
  pub os : GoString
  pub login_at : GoString
  pub register_at : GoString
  pub online : Bool
  pub ip : GoString
  pub bind_user : GoString
  pub net_delay : ℕ

abbrev tagged : GoString → GoString → FieldValue → StructField
tagged name tag value = record { name = name; tag = tag; exported = true; value = value }

abbrev pub user_fields : User → List StructField
user_fields u =
    tagged (codes "UserName") (codes "user_name") (str u.user_name)
    ∷ tagged (codes "PasswordMD5") (codes "password_md5") (str u.password_md5)
    ∷ tagged (codes "StartTime") (codes "start_time") (int u.start_time)
    ∷ tagged (codes "EndTime") (codes "end_time") (int u.end_time)
    ∷ tagged (codes "TotalTraffic") (codes "total_traffic") (int u.total_traffic)
    ∷ tagged (codes "CurrentTraffic") (codes "current_traffic") (int u.current_traffic)
    ∷ tagged (codes "RouteMode") (codes "route_mode") (int u.route_mode)
    ∷ tagged (codes "RouteNodeID") (codes "route_node_id") (str u.route_node_id)
    ∷ tagged (codes "UpdateRouteIntervals") (codes "update_route_intervals")
        (int u.update_route_intervals)
    ∷ tagged (codes "UpdateRouteTime") (codes "update_route_time") (int u.update_route_time)
    ∷ tagged (codes "Off") (codes "off") (bool u.off)
    ∷ tagged (codes "UploadRateLimit") (codes "upload_rate_limit") (int u.upload_rate_limit)
    ∷ tagged (codes "DownloadRateLimit") (codes "download_rate_limit") (int u.download_rate_limit)
    ∷ []

-- The tagged fields of a Node; Id and Online have no tag and no key of theirs is ever stored.
abbrev pub node_fields : Node → List StructField
node_fields n =
    tagged (codes "OS") (codes "os") (str n.os)
    ∷ tagged (codes "LoginAt") (codes "login_at") (str n.login_at)
    ∷ tagged (codes "RegisterAt") (codes "register_at") (str n.register_at)
    ∷ tagged (codes "IP") (codes "ip") (str n.ip)
    ∷ tagged (codes "BindUser") (codes "bind_user") (str n.bind_user)
    ∷ tagged (codes "NetDelay") (codes "net_delay") (int n.net_delay)
    ∷ []

abbrev pub value_at : List StructField → ℕ → FieldValue
value_at [] i = str []
value_at (f ∷ fs) zero = f.value
value_at (f ∷ fs) (suc i) = value_at fs i

abbrev pub as_str : FieldValue → GoString
as_str (str s) = s
as_str (bool _) = []
as_str (int _) = []

abbrev as_int : FieldValue → ℕ
as_int (int n) = n
as_int (bool _) = 0
as_int (str _) = 0

abbrev as_bool : FieldValue → Bool
as_bool (bool b) = b
as_bool (int _) = false
as_bool (str _) = false

-- The struct whose fields these are.
abbrev pub user_of_fields : List StructField → User
user_of_fields fs = record {
  user_name = as_str (value_at fs 0);
  password_md5 = as_str (value_at fs 1);
  start_time = as_int (value_at fs 2);
  end_time = as_int (value_at fs 3);
  total_traffic = as_int (value_at fs 4);
  current_traffic = as_int (value_at fs 5);
  route_mode = as_int (value_at fs 6);
  route_node_id = as_str (value_at fs 7);
  update_route_intervals = as_int (value_at fs 8);
  update_route_time = as_int (value_at fs 9);
  off = as_bool (value_at fs 10);
  upload_rate_limit = as_int (value_at fs 11);
  download_rate_limit = as_int (value_at fs 12);
}

abbrev pub node_of_fields : GoString → Bool → List StructField → Node
node_of_fields id online fs = record {
  id = id;
  os = as_str (value_at fs 0);
  login_at = as_str (value_at fs 1);
  register_at = as_str (value_at fs 2);
  online = online;
  ip = as_str (value_at fs 3);
  bind_user = as_str (value_at fs 4);
  net_delay = as_int (value_at fs 5);
}

-- &User{} and &Node{}
abbrev pub zero_user : User
zero_user = record {
  user_name = [];
  password_md5 = [];
  start_time = 0;
  end_time = 0;
  total_traffic = 0;
  current_traffic = 0;
  route_mode = 0;
  route_node_id = [];
  update_route_intervals = 0;
  update_route_time = 0;
  off = false;
  upload_rate_limit = 0;
  download_rate_limit = 0;
}

abbrev pub zero_node : Node
zero_node = record {
  id = [];
  os = [];
  login_at = [];
  register_at = [];
  online = false;
  ip = [];
  bind_user = [];
  net_delay = 0;
}

pub user_of_fields-user_fields : (u : User) → user_of_fields (user_fields u) ≡ u
user_of_fields-user_fields u = refl

pub node_of_fields-node_fields : (n : Node) → node_of_fields n.id n.online (node_fields n) ≡ n
node_of_fields-node_fields n = refl

-- fmt.Sprintf of the key formats
unfoldable pub user_key : GoString → GoString
user_key name = codes "titan:user:" ++ name

unfoldable pub node_key : GoString → GoString
node_key id = codes "titan:node:" ++ id

unfoldable pub key_user_zset : GoString
key_user_zset = codes "titan:user:zset"

unfoldable pub key_node_zset : GoString
key_node_zset = codes "titan:node:zset"

unfoldable pub key_node_online : GoString
key_node_online = codes "titan:node:online"

unfoldable pub key_node_bind : GoString
key_node_bind = codes "titan:node:bind"

unfoldable pub key_node_free : GoString
key_node_free = codes "titan:node:free"
