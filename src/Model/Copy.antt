-- ===== src/Model/Copy.antt =====
-- `cwmp_model_copy_parameter` and `cwmp_model_copy_parameter_object` of
-- netcwmp_xo/libcwmp/src/model.c. The pool has memory; the text of a number is a parameter.
pub mod Found
use netcwmp_xo.Base.{ℕ, Bool, true, false, Option, none, some, ltb, Rc, cwmp_ok, cwmp_error}
use netcwmp_xo.Param.{Name, Info, zeroed_info, Node, null, node}
use netcwmp_xo.Model.{pstrdup}

-- A node of the copy keeps the value and the name in the configuration.
abbrev pub copied_info : Info → Info
copied_info i = record zeroed_info { value = pstrdup (i.value); ininame = pstrdup (i.ininame) }

-- The loop of `cwmp_model_copy_parameter_object` over a chain of children, with its calls for each
unfoldable pub copy_below : Node → Node
copy_below null = null
copy_below (node name i c s) = node (pstrdup name) (copied_info i) (copy_below c) (copy_below s)

-- The loop that puts the new node behind the last sibling
unfoldable pub append_sibling : Node → Node → Node
append_sibling null new_node = new_node
append_sibling (node name i c s) new_node = node name i c (append_sibling s new_node)

-- The new instance: a copy of the members, less the value and the name in the configuration
abbrev pub instance_of : Name → Info → Node → Node
instance_of name i c =
    node (pstrdup (some name)) (record i { value = none; ininame = none }) (copy_below c) null

-- What is returned, the parameter afterwards, and the new node
pub record Copied : Type 0 where
  pub rc : Rc
  pub param : Node
  pub new_param : Option Node

module _ (itoa : ℕ → Name) where
  abbrev pub copy_object :
      Bool → Option Name → Info → Option Name → Info → Node → Node → Node → ℕ → Copied
  copy_object true name i m j d r s k = record {
    rc = cwmp_ok;
    param = node name i (node m j d (append_sibling r (instance_of (itoa k) j d))) s;
    new_param = some (instance_of (itoa k) j d);
  }
  copy_object false name i m j d r s k = record {
    rc = cwmp_ok;
    param = node name i (node m j d r) s;
    new_param = some (node none zeroed_info (copy_below d) null);
  }

  -- `cwmp_model_copy_parameter` for an instance number that is not negative
  unfoldable pub copy_parameter : Node → ℕ → Copied
  copy_parameter null k = record { rc = cwmp_ok; param = null; new_param = none }
  copy_parameter (node name i null s) k = record {
    rc = cwmp_error;
    param = node name i null s;
    new_param = none;
  }
  copy_parameter (node name i (node m j d r) s) k = copy_object (ltb 0 k) name i m j d r s k
