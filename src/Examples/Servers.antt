-- ===== src/Examples/Servers.antt =====
-- Connecting to NATS, with a client library that knows one stream.
use iec104bridge.Base.{ℕ, ◌≡◌, ◌↔◌, refl, Option, none, some, List, [], ◌∷◌, if◌then◌else◌}
use iec104bridge.Base.Result.{ok}
use iec104bridge.Environment.{Text, codes, same}
use iec104bridge.Nats.Connect.{
  is_whitespace, NatsClient, nats_urls, from_config, deliver_new, ack_explicit, subject_or_all,
}
use iec104bridge.Nats.Connect.Steps.{Identifies, from_config_iff}
use iec104bridge.Nats.Connect.Urls.{Listed, Lists, IsListed, joined, nats_urls-joined}
use iec104bridge.Config.{Config}
use iec104bridge.Config.Whole.{default_config}

abbrev client : NatsClient
client = record {
  Credentials = Text;
  Client = List Text;
  Stream = Text;
  Consumer = Text;
  Messages = ℕ;
  with_credentials_file = λ path. some path;
  connect = λ credentials urls. some urls;
  get_stream = λ c name. if same name (codes "S") then some name else none;
  get_or_create_consumer = λ stream name config. some name;
  messages = λ consumer. some 0;
}

abbrev config : Config
config = default_config (codes "S") (codes "C")

from_config_iff_example : (from_config client config ≡ ok 0) ↔ (
    (urls : List Text) × Lists config.nats_url urls
    × (c : List Text) × ((credentials : Option Text) × Identifies client
          config.nats_credentials_path credentials
        × (client.connect credentials urls ≡ some c))
    × (stream : Text) × (client.get_stream c config.nats_stream ≡ some stream)
    × (consumer : Text) × (client.get_or_create_consumer stream config.nats_consumer (record {
      durable_name = some config.nats_consumer;
      deliver_policy = deliver_new;
      ack_policy = ack_explicit;
      filter_subject = subject_or_all config.nats_subject_filter;
    })
        ≡ some consumer)
    × (client.messages consumer ≡ some 0))
from_config_iff_example = from_config_iff client config 0

abbrev first : Listed
first = record { before = []; url = codes "nats://a:4222"; after = codes " " }

abbrev second : Listed
second = record { before = codes " \t"; url = codes "nats://b"; after = [] }

first-IsListed : IsListed first
unfolding is_whitespace
first-IsListed = record {
  before_blank = tt;
  after_blank = (refl, tt);
  starts = refl;
  ends = refl;
  one_url = (
    refl,
    (
      refl,
      (refl, (refl, (refl, (refl, (refl, (refl, (refl, (refl, (refl, (refl, (refl, tt))))))))))),
    ),
  );
}

second-IsListed : IsListed second
unfolding is_whitespace
second-IsListed = record {
  before_blank = (refl, (refl, tt));
  after_blank = tt;
  starts = refl;
  ends = refl;
  one_url = (refl, (refl, (refl, (refl, (refl, (refl, (refl, (refl, tt))))))));
}

nats_urls-joined_example :
    nats_urls (joined first (second ∷ [])) ≡ codes "nats://a:4222" ∷ codes "nats://b" ∷ []
nats_urls-joined_example = nats_urls-joined first (second ∷ []) first-IsListed (second-IsListed, tt)
