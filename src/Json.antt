-- ===== src/Json.antt =====
-- QJsonValue and QJsonObject. `value` of a missing key is `none`, Qt's undefined; toString, toInt
-- and toBool of another kind of value give "", 0 and false.
use Prim.Native.String.{String}
use scriba.Prelude.{Bool, false, Option, none, some, if◌then◌else◌}
use scriba.Prelude.Int.{ℤ, pos}
use scriba.Qt.{same}

mutual
  pub data Json : Type 0 where
    null : Json
    bool : Bool → Json
    num : ℤ → Json
    str : String → Json
    arr : Items → Json
    obj : Fields → Json

  pub data Items : Type 0 where
    done : Items
    item : Json → Items → Items

  pub data Fields : Type 0 where
    end : Fields
    field : String → Json → Fields → Fields

abbrev pub value : Fields → String → Option Json
value end k = none
value (field j v o) k = if same j k then some v else value o k

-- o[k] = v
abbrev pub assign : String → Json → Fields → Fields
assign k v end = field k v end
assign k v (field j w o) = if same j k then field k v o else field j w (assign k v o)

abbrev pub to_text : Option Json → String
to_text (some (str s)) = s
to_text _ = ""

abbrev pub to_int : Option Json → ℤ
to_int (some (num n)) = n
to_int _ = pos 0

abbrev pub to_bool : Option Json → Bool
to_bool (some (bool b)) = b
to_bool _ = false

abbrev pub to_object : Option Json → Fields
to_object (some (obj o)) = o
to_object _ = end

abbrev pub to_array : Option Json → Items
to_array (some (arr l)) = l
to_array _ = done
