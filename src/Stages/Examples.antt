-- ===== src/Stages/Examples.antt =====
-- A deployment at revision 2 whose stages are those of revision 1.
use innerstack.Prelude.{bytes, [], some, Text}
use innerstack.Prelude.Int.{pos}
use innerstack.Stages.{
  StageInfo, stage, no_stages, stage_then, name_deploy, name_replica, owner_zonelet, state_success,
  Deploy, Limits,
}

abbrev done : Text → StageInfo
done name = record {
  name = name;
  owner = owner_zonelet;
  revision = 1;
  state = state_success;
  attempt = pos 0;
  attrs = [];
  message = [];
  created = pos 5;
  finished = pos 9;
}

abbrev deployed : Deploy
deployed = record {
  revision = 2;
  stages = some (
      stage (done name_deploy) (
        stage_then
          (stage (done name_replica)
            (stage_then (stage (done (bytes "image_pull")) no_stages) no_stages))
          no_stages));
}

abbrev one_core : Limits
one_core = record { low = []; high = []; legacy = bytes "1" }
