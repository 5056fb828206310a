-- ===== src/Package.antt =====
-- compiler/lib/Package/Package.cpp: a package's description as JSON.
pub mod RoundTrip
use supreme_doodle.Common.{
  Bool, true, false, Option, none, some, List, [], ◌∷◌, String, str_eq, if◌then◌else◌,
}

-- `llvm::json::Value`, its objects and its arrays
mutual
  pub data Json : Type 0 where
    object : Members → Json
    array : Items → Json
    string : String → Json
    other : Json

  pub data Members : Type 0 where
    no_members : Members
    member : String → Json → Members → Members

  pub data Items : Type 0 where
    no_items : Items
    item : Json → Items → Items

-- `Object::get`
abbrev pub get : String → Members → Option Json
get k no_members = none
get k (member j v ms) = if str_eq j k then some v else get k ms

-- LLVM's printing and parsing of JSON
pub record Codec (Text : Type 0) : Type 0 where
  pub print : Json → Text
  pub parse : Text → Option Json

pub record PackageInfo : Type 0 where
  pub name : String
  pub version : String
  pub description : String
  pub rel_src_path : String
  pub dependencies : List String

-- what is written to `errs`
pub data Complaint : Type 0 where
  quiet bad_json no_object : Complaint

abbrev pub strings : List String → Items
strings [] = no_items
strings (k ∷ ks) = item (string k) (strings ks)

unfoldable pub serialize : {Text : Type 0} → Codec Text → PackageInfo → Text
serialize codec p = codec.print (
    object (
      member "Name" (string p.name) (
        member "Version" (string p.version) (
          member "Description" (string p.description) (
            member "RelSrcPath" (string p.rel_src_path)
              (member "Dependencies" (array (strings p.dependencies)) no_members))))))

-- a field that keeps its value unless the key has a string
unfoldable pub read_text : Option Json → String → String
read_text (some (string k)) old = k
read_text _ old = old

-- The items that are no strings are left out.
abbrev pub read_items : Items → List String
read_items no_items = []
read_items (item (string k) js) = k ∷ read_items js
read_items (item _ js) = read_items js

unfoldable pub read_dependencies : Option Json → List String → List String
read_dependencies (some (array js)) old = read_items js
read_dependencies _ old = old

unfoldable pub read_root : Members → PackageInfo → PackageInfo
unfolding read_text read_dependencies
read_root root p = record {
  name = read_text (get "name" root) p.name;
  version = read_text (get "version" root) p.version;
  description = read_text (get "description" root) p.description;
  rel_src_path = read_text (get "src" root) p.rel_src_path;
  dependencies = read_dependencies (get "dependencies" root) p.dependencies;
}

abbrev pub read_value : Option Json → PackageInfo → Complaint × PackageInfo
read_value none p = (bad_json, p)
read_value (some (object root)) p = (quiet, read_root root p)
read_value (some _) p = (no_object, p)

unfoldable pub deserialize :
    {Text : Type 0} → Codec Text → Text → PackageInfo → Complaint × PackageInfo
unfolding read_root
deserialize codec text p = read_value (codec.parse text) p
