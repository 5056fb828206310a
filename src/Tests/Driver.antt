-- ===== src/Tests/Driver.antt =====
-- A witness of the theorem on the whole of the frontend's main.
use supreme_doodle.Common.{false}
use supreme_doodle.Common.{◌≡◌, refl, none, some, arith}
use supreme_doodle.Frontend.{Frontend, ran, load}
use supreme_doodle.Driver.{System, resolved, frontend_main}
use supreme_doodle.Driver.Composed.{IsAnalysed, frontend_main-IsAnalysed}
use supreme_doodle.Tests.Frontend.{disk, files, first, one_component, disk-Finite, known_component}

-- the two files that import each other, under the name by which the command line has the first
abbrev machine : System
machine = record {
  real_path = λ name. resolved "/a";
  disk = disk;
  components = one_component;
  reaches = λ k i. false;
  garbage = λ i. none;
}

frontend_main-IsAnalysed_example :
    (s : Frontend) × (load disk 2 "/a" ≡ some (ran s))
    × IsAnalysed machine s (frontend_main 2 0 machine "./a")
frontend_main-IsAnalysed_example =
    frontend_main-IsAnalysed 2 0 machine "./a" "/a" first files disk-Finite (omega arith)
      known_component refl refl refl
