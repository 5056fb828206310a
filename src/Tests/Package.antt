-- ===== src/Tests/Package.antt =====
-- Reading and writing with texts that are the values themselves.
use supreme_doodle.Common.{◌≡◌, refl, some, [], ◌∷◌}
use supreme_doodle.Package.{Json, Codec, PackageInfo, quiet, serialize, deserialize}
use supreme_doodle.Package.RoundTrip.{manifest, deserialize-manifest, deserialize-serialize}

abbrev values : Codec Json
values = record { print = λ v. v; parse = λ v. some v }

abbrev app : PackageInfo
app = record {
  name = "app";
  version = "1.0";
  description = "";
  rel_src_path = "src";
  dependencies = "std" ∷ "io" ∷ [];
}

abbrev blank : PackageInfo
blank = record {
  name = "";
  version = "";
  description = "";
  rel_src_path = "";
  dependencies = "old" ∷ [];
}

deserialize-manifest_example : deserialize values (manifest app) blank ≡ (quiet, app)
deserialize-manifest_example = deserialize-manifest values (λ v. refl) app blank

deserialize-serialize_example : deserialize values (serialize values app) blank ≡ (quiet, blank)
deserialize-serialize_example = deserialize-serialize values (λ v. refl) app blank
