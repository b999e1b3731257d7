-- ===== src/Examples/Inputs.antt =====
-- The Unix socket and the NATS source at concrete inputs.
use iec104bridge.Base.{◌≡◌, refl, none, some, [], ◌∷◌}
use iec104bridge.Validation.{validate_message}
use iec104bridge.Unix.{
  trim_end, process_unix_socket_line, handle_unix_client, error_parse, ok_reply,
}
use iec104bridge.Unix.Protocol.{Outcome, process_unix_socket_line-Outcome}
use iec104bridge.Base.Int.{pos}
use iec104bridge.Listener.{Ucred, default_peer_cred_lookup}
use iec104bridge.Listener.Credentials.{Admission, handle_unix_client-credentials}
use iec104bridge.Unix.Replies.{
  Session, Reach, here, next, forward, IsBalanced, Reach-IsBalanced, reply_overtakes,
}
use iec104bridge.Examples.Samples.{breaker, parser, peer, fresh, good_line, bad_line, reads}

process_unix_socket_line-Outcome_example :
    let r = process_unix_socket_line parser peer 64 good_line 2 fresh in
    Outcome parser peer 64 good_line 2 fresh r.0 r.1
process_unix_socket_line-Outcome_example =
    process_unix_socket_line-Outcome parser peer 64 good_line 2 fresh

-- The user 1000, where only root is allowed.
abbrev raw : Ucred
raw = record { pid = pos 7; uid = 1000; gid = 100 }

handle_unix_client-credentials_example :
    Admission parser peer 64 (some 0) none (pos 0) raw reads fresh (
      handle_unix_client parser peer
        (default_peer_cred_lookup (pos 0) raw)
        (some 0)
        none
        64
        reads
        fresh)
handle_unix_client-credentials_example =
    handle_unix_client-credentials parser peer 64 (some 0) none (pos 0) raw reads fresh

abbrev session : Session
session = record { client = fresh; waiting = []; served = 0; lost = 0 }

abbrev after_good : Session
after_good = record {
  client = record { replies = []; forwarded = breaker ∷ [] };
  waiting = breaker ∷ [];
  served = 1;
  lost = 0;
}

Reach-after_good : Reach parser peer 64 session after_good
unfolding process_unix_socket_line trim_end validate_message
Reach-after_good = next here (forward good_line 2 fresh breaker refl refl)

Reach-IsBalanced_example : IsBalanced after_good
Reach-IsBalanced_example = Reach-IsBalanced parser peer 64 Reach-after_good refl

reply_overtakes_example :
    (t : Session) × Reach parser peer 64 session t
    × (t.client.replies ≡ ok_reply ∷ error_parse ∷ [])
    × (t.waiting ≡ [])
unfolding process_unix_socket_line trim_end validate_message
reply_overtakes_example =
    reply_overtakes parser peer 64 good_line bad_line 2 2 session breaker error_parse refl refl refl
