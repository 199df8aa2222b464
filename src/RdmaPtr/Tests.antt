-- ===== src/RdmaPtr/Tests.antt =====
-- Runs of the pointer operations, and the properties at concrete pointers.
use remus_tutorial.Prelude.{◌≡◌, refl, true}
use remus_tutorial.RdmaPtr.{RdmaPtr, id, address, of_id_address, of_id_pointer, pointer_to, eq_null}
use remus_tutorial.RdmaPtr.{add_assign, post_increment, null}

abbrev sample : RdmaPtr
sample = record { raw_ = 0x0003_0000_dead_bee0 }

abbrev top : RdmaPtr
top = record { raw_ = 0x0003_ffff_ffff_fff8 }

sample_fields : (id sample ≡ 3) × (address sample ≡ 0xdeadbee0)
unfolding id address
sample_fields = (refl, refl)

of_id_address_wraps : of_id_address 3 0xdeadbee0 ≡ sample
unfolding of_id_address
of_id_address_wraps = refl

-- The null test of a pointer with an id passes when its address is 0.
null_tests : (eq_null null ≡ true) × (eq_null (record { raw_ = 0x0003_0000_0000_0000 }) ≡ true)
unfolding eq_null address null
null_tests = (refl, refl)

id-pointer_to : id (pointer_to 64) ≡ 0xffff
unfolding pointer_to id of_id_address of_id_pointer
id-pointer_to = refl

-- The address wraps without carrying into the id.
top_wraps : (post_increment 8 top).0 ≡ record top { raw_ = 0x0003_0000_0000_0000 }
unfolding post_increment add_assign
top_wraps = refl
