-- ===== src/Tests/Data.antt =====
-- A small world and the parameters of the models as concrete functions.
use vehicle_lifecycle_manage.Base.{◌+◌, ◌%◌, none, some, [], ◌∷◌, true, false}
use vehicle_lifecycle_manage.Base.Lists.{length}
use vehicle_lifecycle_manage.Base.Text.{Text, text, text_eq}
use vehicle_lifecycle_manage.Domain.{
  police, bank, government, ChallanStatus, CallerIdentity, b2b, b2c, admin, owner,
}
use vehicle_lifecycle_manage.Domain.Failure.{ok}
use vehicle_lifecycle_manage.Store.Rows.{B2bEntity, VehicleOwnership, Challan}
use vehicle_lifecycle_manage.Store.World.{World}
use vehicle_lifecycle_manage.Chain.Manager.{Node}
use vehicle_lifecycle_manage.Http.Auth.{Verified, valid, malformed}
use vehicle_lifecycle_manage.Http.Request.{absent, Request}
use vehicle_lifecycle_manage.Challan.Payment.{Gateway}

-- A node that gives out the hashes 100, 101 and so on.
abbrev pub node : Node
node = record {
  decrypt = λ payload kind. ok payload;
  has_function = λ target call. true;
  send = λ key call sent. ok (100 + length sent);
}

abbrev pub gateway : Gateway
gateway = record {
  hmac = λ s. (b'0' + length s % 10) ∷ b'7' ∷ [];
  amount_text = λ n. (b'0' + n % 10) ∷ [];
}

abbrev pub station : B2bEntity
station = record {
  id = 1;
  code = text "MH12";
  kind = police;
  on_chain_id = some 4;
  is_active = true;
  signing_key = some (text "key");
}

abbrev pub ownership : VehicleOwnership
ownership = record {
  id = 2;
  own_tid = some 7;
  passport_id = 3;
  rto_entity_id = 51;
  owner_wallet = text "0xab";
  reg_date = 10;
  transfer_count = 0;
  owner_user_id = some 9;
  rto_member_id = none;
  is_active = true;
}

abbrev pub open_challan : Challan
open_challan = record {
  id = 5;
  challan_id = some 11;
  ownership_id = 2;
  own_tid = some 7;
  police_entity_id = 1;
  amount = 6;
  status = ChallanStatus.pending;
  is_admin_cancel = false;
  issued_at = 40;
  paid_at = none;
  cancelled_at = none;
  created_by_member_id = some 8;
  cancelled_by_member_id = none;
  violator_user_id = some 9;
  payment_order_id = none;
  payment_ref = none;
}

abbrev pub world : World
world = record {
  users = [];
  entities = station ∷ [];
  members = [];
  sessions = [];
  otps = [];
  passports = [];
  ownerships = ownership ∷ [];
  registrations = [];
  transfers = [];
  challans = open_challan ∷ [];
  loans = [];
  policies = [];
  transactions = [];
  next_id = 20;
  now = 50;
  mempool = [];
}

abbrev pub banker : CallerIdentity
banker = record {
  sub = text "m1";
  kind = b2b;
  jti = text "j";
  wallet = none;
  email = none;
  entity_id = some (text "e1");
  entity_type = some bank;
  role = some admin;
  exp = 2;
  iat = 1;
}

abbrev pub governor : CallerIdentity
governor = record banker { entity_type = some government; role = some owner }

abbrev pub citizen : CallerIdentity
citizen = record banker { kind = b2c; wallet = some (text "0xab"); entity_id = none }

-- The token is the only one that verifies.
abbrev pub verify_as : CallerIdentity → Text → Verified
verify_as p token = elim (text_eq token (text "token")) [ true ↦ valid p | false ↦ malformed ]

abbrev pub request : Request
request = record {
  method = text "POST";
  path = text "/api/bank/loans";
  cookie_access = some (text "token");
  cookie_csrf = none;
  authorization = absent;
  csrf_header = absent;
  cf_connecting_ip = absent;
  x_forwarded_for = absent;
  x_real_ip = absent;
  express_ip = some (text "127.0.0.1");
  socket_address = none;
  trust_proxy = false;
  caller = none;
}
