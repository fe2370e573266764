-- ===== src/Packages.antt =====
-- shell_tests/helpers/package_api: Position (app_position.py), Package (package_api.py and
-- shell_tests/helpers/app_helpers.py), and here models.py. What `xmltodict` is given is a tree of dicts,
-- lists and texts; `unparse` itself is a parameter.
pub mod Position
pub mod Package
use cloudshell_shell_automat.Base.{
  String, ◌<>◌, Bool, true, false, List, [], ◌∷◌, starts_with, is_blank, map, decimal, ℕ,
  if◌then◌else◌,
}
use cloudshell_shell_automat.Base.Dict.{Dict}

mutual
  pub data Xml : Type 0 where
    text : String → Xml
    dict : Fields → Xml
    list : Items → Xml

  pub data Fields : Type 0 where
    end : Fields
    field : String → Xml → Fields → Fields

  pub data Items : Type 0 where
    nil : Items
    item : Xml → Items → Items

-- `{**a, **b}` of dicts with no common key
unfoldable pub join_fields : Fields → Fields → Fields
join_fields Fields.end g = g
join_fields (Fields.field k x f) g = Fields.field k x (join_fields f g)

abbrev attribute : String → String → String → Xml
attribute name_space key val = Xml.dict (
    Fields.field "@Name" (Xml.text (name_space <> key))
      (Fields.field "@Value" (Xml.text val) Fields.end))

attribute_items : String → Dict String → Items
attribute_items name_space [] = Items.nil
attribute_items name_space ((key, val) ∷ attributes) =
    Items.item (attribute name_space key val) (attribute_items name_space attributes)

unfoldable pub create_attributes : Dict String → String → Xml
unfolding attribute_items
create_attributes attributes deployment_path =
    let name_space = if is_blank deployment_path then "" else deployment_path <> "." in
    Xml.dict
      (Fields.field "Attribute" (Xml.list (attribute_items name_space attributes)) Fields.end)

unfoldable pub get_bool : Bool → String
get_bool true = "true"
get_bool false = "false"

-- `MetaData`, by the text of its date
unfoldable pub metadata_xml : String → String → Xml
metadata_xml cs_version now = Xml.dict (
    Fields.field "Metadata"
      (Xml.dict (
        Fields.field "@xmlns:xsd" (Xml.text "http://www.w3.org/2001/XMLSchema") (
          Fields.field "@xmlns:xsi" (Xml.text "http://www.w3.org/2001/XMLSchema-instance") (
            Fields.field "@xmlns"
              (Xml.text "http://schemas.qualisystems.com/PackageMetadataSchema.xsd")
              (Fields.field "CreationDate" (Xml.text now) (
                Fields.field "ServerVersion"
                  (Xml.text (if is_blank cs_version then "9.3.0" else cs_version))
                  (Fields.field "PackageType" (Xml.text "CloudShellPackage") Fields.end)))))))
      Fields.end)

pub record DeploymentPath : Type 0 where
  pub cp_name : String
  pub cp_model : String
  pub deployment_path : String
  pub attributes : Dict String
  pub is_default : Bool

-- The name `dp`.
unfoldable pub dp_name : DeploymentPath → String
dp_name d =
    if starts_with d.deployment_path (d.cp_model <> ".")
    then d.deployment_path
    else d.cp_model <> ("." <> d.deployment_path)

-- `DeploymentPath.to_xml_dict`
unfoldable pub deployment_path_xml : DeploymentPath → Xml
unfolding dp_name get_bool create_attributes
deployment_path_xml d = Xml.dict (
    Fields.field "@Name" (Xml.text (d.cp_name <> (" - " <> dp_name d))) (
      Fields.field "@Default" (Xml.text (get_bool d.is_default)) (
        Fields.field "DeploymentService"
          (Xml.dict (
            Fields.field "@Name" (Xml.text (dp_name d)) (
              Fields.field "@CloudProvider" (Xml.text d.cp_name) (
                Fields.field "Attributes" (create_attributes d.attributes (dp_name d))
                  Fields.end))))
          Fields.end)))

pub record App : Type 0 where
  pub name : String
  pub deployment_paths : List DeploymentPath

unfoldable pub default_app_resource : Xml
unfolding create_attributes
default_app_resource = Xml.dict (
    Fields.field "@ModelName" (Xml.text "Generic App Model") (
      Fields.field "@Driver" (Xml.text "") (
        Fields.field "Attributes"
          (create_attributes (("Password", "") ∷ ("Public IP", "") ∷ ("User", "") ∷ []) "")
          Fields.end)))

deployment_path_items : List DeploymentPath → Items
unfolding deployment_path_xml
deployment_path_items [] = Items.nil
deployment_path_items (d ∷ ds) = Items.item (deployment_path_xml d) (deployment_path_items ds)

-- `App.to_xml_dict`
unfoldable pub app_fields : App → Fields
unfolding default_app_resource deployment_path_items
app_fields app =
    Fields.field "AppResourceInfo"
      (Xml.dict (
        Fields.field "@Name" (Xml.text app.name) (
          Fields.field "AppResources"
            (Xml.dict (
              Fields.field "AppResource" (Xml.list (Items.item default_app_resource Items.nil))
                Fields.end))
            (Fields.field "DeploymentPaths"
              (Xml.dict (
                Fields.field "DeploymentPath"
                  (Xml.list (deployment_path_items app.deployment_paths)) Fields.end))
              Fields.end))))
      Fields.end

abbrev schemas : Fields → Fields
schemas rest =
    Fields.field "@xmlns:xsd" (Xml.text "http://www.w3.org/2001/XMLSchema")
      (Fields.field "@xmlns:xsi" (Xml.text "http://www.w3.org/2001/XMLSchema-instance") rest)

abbrev categories : Fields
categories =
    Fields.field "Categories"
      (Xml.dict (
        Fields.field "Category" (Xml.list (Items.item (Xml.text "Applications") Items.nil))
          Fields.end))
      Fields.end

-- `App.get_xml_root_dict`
unfoldable pub app_xml : App → Xml
unfolding app_fields join_fields
app_xml app = Xml.dict (
    Fields.field "AppTemplateInfo" (Xml.dict (schemas (join_fields (app_fields app) categories)))
      Fields.end)
