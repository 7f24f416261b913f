-- ===== src/Examples/Sessions.antt =====
-- Live sessions for the examples.
use vodum.Common.{some, [], true, false}
use vodum.State.{Provider}
use vodum.Policies.{Session}

-- A film on the television, and on the telephone a minute later.
abbrev pub on_television : Session
on_television = record {
  provider = Provider.plex;
  server_id = 7;
  vodum_user_id = some 5;
  session_key = "a";
  media_type = "movie";
  grandparent_title = "";
  parent_title = "";
  title = "metropolis";
  media_key = "12";
  started_at = some 900;
  last_seen_at = some 1000;
  is_transcode = false;
  external_user_id = "x5";
  machine_ids = [];
  json_id = "";
  ip = "81.2.69.160";
  device = "tv";
  client_product = "plex for tv";
  client_name = "salon";
  bitrate = 9000;
  media_height = some 1080;
}

abbrev pub on_telephone : Session
on_telephone = record on_television {
  session_key = "b";
  started_at = some 960;
  is_transcode = true;
}

-- The same user elsewhere, and later at home on another server.
abbrev pub on_laptop : Session
on_laptop = record on_television {
  session_key = "c";
  title = "nosferatu";
  ip = "81.2.69.161";
  device = "laptop";
  client_product = "plex web";
  started_at = some 2000;
  last_seen_at = some 2090;
}

abbrev pub on_tablet : Session
on_tablet = record on_television {
  server_id = 8;
  session_key = "d";
  title = "faust";
  ip = "192.168.1.9";
  device = "tablet";
  client_product = "plex for ios";
  started_at = some 3000;
  last_seen_at = some 3090;
}
