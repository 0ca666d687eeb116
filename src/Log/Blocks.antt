-- ===== src/Log/Blocks.antt =====
-- thirdpart/Logger/src/log/Logger.h: the eleven families of macros, a block of the header each.
use Prim.Native.Nat.{bit_or}
use cppserver.Prelude.{ℕ, List, [], ◌∷◌, String}
use cppserver.Log.{
  f_sync, f_detail, f_tmstmp, f_fn, f_tmstmp_fn, f_fl, f_tmstmp_fl, f_fl_fn, f_tmstmp_fl_fn, f_text,
  f_pure, param_fatal, param_error, param_warn, param_critical, param_info, param_debug,
  param_trace, Statement, write, write_s, write_fatal_s, wait, abort, Macro, fatalf, errorf, warnf,
  criticalf, infof, debugf, tracef, fatal, error, warn, critical, info, debug, trace, syn_fatalf,
  syn_fatal,
}

-- The macros without an ending: the flag is what `_LOG_STYLE()` gives.
unfoldable pub plain_macro : ℕ → Macro → String → List Statement
plain_macro style fatalf s = write param_fatal (bit_or style f_sync) s ∷ wait ∷ abort ∷ []
plain_macro style errorf s = write param_error style s ∷ []
plain_macro style warnf s = write param_warn style s ∷ []
plain_macro style criticalf s = write param_critical style s ∷ []
plain_macro style infof s = write param_info style s ∷ []
plain_macro style debugf s = write param_debug style s ∷ []
plain_macro style tracef s = write param_trace style s ∷ []
plain_macro style fatal s = write_fatal_s param_fatal (bit_or style f_sync) s ∷ []
plain_macro style error s = write_s param_error style s ∷ []
plain_macro style warn s = write_s param_warn style s ∷ []
plain_macro style critical s = write_s param_critical style s ∷ []
plain_macro style info s = write_s param_info style s ∷ []
plain_macro style debug s = write_s param_debug style s ∷ []
plain_macro style trace s = write_s param_trace style s ∷ []
plain_macro style syn_fatalf s = write param_fatal (bit_or style f_sync) s ∷ wait ∷ []
plain_macro style syn_fatal s = write_s param_fatal (bit_or style f_sync) s ∷ wait ∷ []

unfoldable pub detail_macro : Macro → String → List Statement
detail_macro fatalf s = write param_fatal (bit_or f_detail f_sync) s ∷ wait ∷ abort ∷ []
detail_macro errorf s = write param_error f_detail s ∷ []
detail_macro warnf s = write param_warn f_detail s ∷ []
detail_macro criticalf s = write param_critical f_detail s ∷ []
detail_macro infof s = write param_info f_detail s ∷ []
detail_macro debugf s = write param_debug f_detail s ∷ []
detail_macro tracef s = write param_trace f_detail s ∷ []
detail_macro fatal s = write_fatal_s param_fatal (bit_or f_detail f_sync) s ∷ []
detail_macro error s = write_s param_error f_detail s ∷ []
detail_macro warn s = write_s param_warn f_detail s ∷ []
detail_macro critical s = write_s param_critical f_detail s ∷ []
detail_macro info s = write_s param_info f_detail s ∷ []
detail_macro debug s = write_s param_debug f_detail s ∷ []
detail_macro trace s = write_s param_trace f_detail s ∷ []
detail_macro syn_fatalf s = write param_fatal (bit_or f_detail f_sync) s ∷ wait ∷ []
detail_macro syn_fatal s = write_s param_fatal (bit_or f_detail f_sync) s ∷ wait ∷ []

unfoldable pub tmsp_macro : Macro → String → List Statement
tmsp_macro fatalf s = write param_fatal (bit_or f_tmstmp f_sync) s ∷ wait ∷ abort ∷ []
tmsp_macro errorf s = write param_error f_tmstmp s ∷ []
tmsp_macro warnf s = write param_warn f_tmstmp s ∷ []
tmsp_macro criticalf s = write param_critical f_tmstmp s ∷ []
tmsp_macro infof s = write param_info f_tmstmp s ∷ []
tmsp_macro debugf s = write param_debug f_tmstmp s ∷ []
tmsp_macro tracef s = write param_trace f_tmstmp s ∷ []
tmsp_macro fatal s = write_fatal_s param_fatal (bit_or f_tmstmp f_sync) s ∷ []
tmsp_macro error s = write_s param_error f_tmstmp s ∷ []
tmsp_macro warn s = write_s param_warn f_tmstmp s ∷ []
tmsp_macro critical s = write_s param_critical f_tmstmp s ∷ []
tmsp_macro info s = write_s param_info f_tmstmp s ∷ []
tmsp_macro debug s = write_s param_debug f_tmstmp s ∷ []
tmsp_macro trace s = write_s param_trace f_tmstmp s ∷ []
tmsp_macro syn_fatalf s = write param_fatal (bit_or f_tmstmp f_sync) s ∷ wait ∷ []
tmsp_macro syn_fatal s = write_s param_fatal (bit_or f_tmstmp f_sync) s ∷ wait ∷ []

unfoldable pub fn_macro : Macro → String → List Statement
fn_macro fatalf s = write param_fatal (bit_or f_fn f_sync) s ∷ wait ∷ abort ∷ []
fn_macro errorf s = write param_error f_fn s ∷ []
fn_macro warnf s = write param_warn f_fn s ∷ []
fn_macro criticalf s = write param_critical f_fn s ∷ []
fn_macro infof s = write param_info f_fn s ∷ []
fn_macro debugf s = write param_debug f_fn s ∷ []
fn_macro tracef s = write param_trace f_fn s ∷ []
fn_macro fatal s = write_fatal_s param_fatal (bit_or f_fn f_sync) s ∷ []
fn_macro error s = write_s param_error f_fn s ∷ []
fn_macro warn s = write_s param_warn f_fn s ∷ []
fn_macro critical s = write_s param_critical f_fn s ∷ []
fn_macro info s = write_s param_info f_fn s ∷ []
fn_macro debug s = write_s param_debug f_fn s ∷ []
fn_macro trace s = write_s param_trace f_fn s ∷ []
fn_macro syn_fatalf s = write param_fatal (bit_or f_fn f_sync) s ∷ wait ∷ []
fn_macro syn_fatal s = write_s param_fatal (bit_or f_fn f_sync) s ∷ wait ∷ []

unfoldable pub tmsp_fn_macro : Macro → String → List Statement
tmsp_fn_macro fatalf s = write param_fatal (bit_or f_tmstmp_fn f_sync) s ∷ wait ∷ abort ∷ []
tmsp_fn_macro errorf s = write param_error f_tmstmp_fn s ∷ []
tmsp_fn_macro warnf s = write param_warn f_tmstmp_fn s ∷ []
tmsp_fn_macro criticalf s = write param_critical f_tmstmp_fn s ∷ []
tmsp_fn_macro infof s = write param_info f_tmstmp_fn s ∷ []
tmsp_fn_macro debugf s = write param_debug f_tmstmp_fn s ∷ []
tmsp_fn_macro tracef s = write param_trace f_tmstmp_fn s ∷ []
tmsp_fn_macro fatal s = write_fatal_s param_fatal (bit_or f_tmstmp_fn f_sync) s ∷ []
tmsp_fn_macro error s = write_s param_error f_tmstmp_fn s ∷ []
tmsp_fn_macro warn s = write_s param_warn f_tmstmp_fn s ∷ []
tmsp_fn_macro critical s = write_s param_critical f_tmstmp_fn s ∷ []
tmsp_fn_macro info s = write_s param_info f_tmstmp_fn s ∷ []
tmsp_fn_macro debug s = write_s param_debug f_tmstmp_fn s ∷ []
tmsp_fn_macro trace s = write_s param_trace f_tmstmp_fn s ∷ []
tmsp_fn_macro syn_fatalf s = write param_fatal (bit_or f_tmstmp_fn f_sync) s ∷ wait ∷ []
tmsp_fn_macro syn_fatal s = write_s param_fatal (bit_or f_tmstmp_fn f_sync) s ∷ wait ∷ []

unfoldable pub fl_macro : Macro → String → List Statement
fl_macro fatalf s = write param_fatal (bit_or f_fl f_sync) s ∷ wait ∷ abort ∷ []
fl_macro errorf s = write param_error f_fl s ∷ []
fl_macro warnf s = write param_warn f_fl s ∷ []
fl_macro criticalf s = write param_critical f_fl s ∷ []
fl_macro infof s = write param_info f_fl s ∷ []
fl_macro debugf s = write param_debug f_fl s ∷ []
fl_macro tracef s = write param_trace f_fl s ∷ []
fl_macro fatal s = write_fatal_s param_fatal (bit_or f_fl f_sync) s ∷ []
fl_macro error s = write_s param_error f_fl s ∷ []
fl_macro warn s = write_s param_warn f_fl s ∷ []
fl_macro critical s = write_s param_critical f_fl s ∷ []
fl_macro info s = write_s param_info f_fl s ∷ []
fl_macro debug s = write_s param_debug f_fl s ∷ []
fl_macro trace s = write_s param_trace f_fl s ∷ []
fl_macro syn_fatalf s = write param_fatal (bit_or f_fl f_sync) s ∷ wait ∷ []
fl_macro syn_fatal s = write_s param_fatal (bit_or f_fl f_sync) s ∷ wait ∷ []

unfoldable pub tmsp_fl_macro : Macro → String → List Statement
tmsp_fl_macro fatalf s = write param_fatal (bit_or f_tmstmp_fl f_sync) s ∷ wait ∷ abort ∷ []
tmsp_fl_macro errorf s = write param_error f_tmstmp_fl s ∷ []
tmsp_fl_macro warnf s = write param_warn f_tmstmp_fl s ∷ []
tmsp_fl_macro criticalf s = write param_critical f_tmstmp_fl s ∷ []
tmsp_fl_macro infof s = write param_info f_tmstmp_fl s ∷ []
tmsp_fl_macro debugf s = write param_debug f_tmstmp_fl s ∷ []
tmsp_fl_macro tracef s = write param_trace f_tmstmp_fl s ∷ []
tmsp_fl_macro fatal s = write_fatal_s param_fatal (bit_or f_tmstmp_fl f_sync) s ∷ []
tmsp_fl_macro error s = write_s param_error f_tmstmp_fl s ∷ []
tmsp_fl_macro warn s = write_s param_warn f_tmstmp_fl s ∷ []
tmsp_fl_macro critical s = write_s param_critical f_tmstmp_fl s ∷ []
tmsp_fl_macro info s = write_s param_info f_tmstmp_fl s ∷ []
tmsp_fl_macro debug s = write_s param_debug f_tmstmp_fl s ∷ []
tmsp_fl_macro trace s = write_s param_trace f_tmstmp_fl s ∷ []
tmsp_fl_macro syn_fatalf s = write param_fatal (bit_or f_tmstmp_fl f_sync) s ∷ wait ∷ []
tmsp_fl_macro syn_fatal s = write_s param_fatal (bit_or f_tmstmp_fl f_sync) s ∷ wait ∷ []

unfoldable pub fl_fn_macro : Macro → String → List Statement
fl_fn_macro fatalf s = write param_fatal (bit_or f_fl_fn f_sync) s ∷ wait ∷ abort ∷ []
fl_fn_macro errorf s = write param_error f_fl_fn s ∷ []
fl_fn_macro warnf s = write param_warn f_fl_fn s ∷ []
fl_fn_macro criticalf s = write param_critical f_fl_fn s ∷ []
fl_fn_macro infof s = write param_info f_fl_fn s ∷ []
fl_fn_macro debugf s = write param_debug f_fl_fn s ∷ []
fl_fn_macro tracef s = write param_trace f_fl_fn s ∷ []
fl_fn_macro fatal s = write_fatal_s param_fatal (bit_or f_fl_fn f_sync) s ∷ []
fl_fn_macro error s = write_s param_error f_fl_fn s ∷ []
fl_fn_macro warn s = write_s param_warn f_fl_fn s ∷ []
fl_fn_macro critical s = write_s param_critical f_fl_fn s ∷ []
fl_fn_macro info s = write_s param_info f_fl_fn s ∷ []
fl_fn_macro debug s = write_s param_debug f_fl_fn s ∷ []
fl_fn_macro trace s = write_s param_trace f_fl_fn s ∷ []
fl_fn_macro syn_fatalf s = write param_fatal (bit_or f_fl_fn f_sync) s ∷ wait ∷ []
fl_fn_macro syn_fatal s = write_s param_fatal (bit_or f_fl_fn f_sync) s ∷ wait ∷ []

unfoldable pub tmsp_fl_fn_macro : Macro → String → List Statement
tmsp_fl_fn_macro fatalf s = write param_fatal (bit_or f_tmstmp_fl_fn f_sync) s ∷ wait ∷ abort ∷ []
tmsp_fl_fn_macro errorf s = write param_error f_tmstmp_fl_fn s ∷ []
tmsp_fl_fn_macro warnf s = write param_warn f_tmstmp_fl_fn s ∷ []
tmsp_fl_fn_macro criticalf s = write param_critical f_tmstmp_fl_fn s ∷ []
tmsp_fl_fn_macro infof s = write param_info f_tmstmp_fl_fn s ∷ []
tmsp_fl_fn_macro debugf s = write param_debug f_tmstmp_fl_fn s ∷ []
tmsp_fl_fn_macro tracef s = write param_trace f_tmstmp_fl_fn s ∷ []
tmsp_fl_fn_macro fatal s = write_fatal_s param_fatal (bit_or f_tmstmp_fl_fn f_sync) s ∷ []
tmsp_fl_fn_macro error s = write_s param_error f_tmstmp_fl_fn s ∷ []
tmsp_fl_fn_macro warn s = write_s param_warn f_tmstmp_fl_fn s ∷ []
tmsp_fl_fn_macro critical s = write_s param_critical f_tmstmp_fl_fn s ∷ []
tmsp_fl_fn_macro info s = write_s param_info f_tmstmp_fl_fn s ∷ []
tmsp_fl_fn_macro debug s = write_s param_debug f_tmstmp_fl_fn s ∷ []
tmsp_fl_fn_macro trace s = write_s param_trace f_tmstmp_fl_fn s ∷ []
tmsp_fl_fn_macro syn_fatalf s = write param_fatal (bit_or f_tmstmp_fl_fn f_sync) s ∷ wait ∷ []
tmsp_fl_fn_macro syn_fatal s = write_s param_fatal (bit_or f_tmstmp_fl_fn f_sync) s ∷ wait ∷ []

unfoldable pub text_macro : Macro → String → List Statement
text_macro fatalf s = write param_fatal (bit_or f_text f_sync) s ∷ wait ∷ abort ∷ []
text_macro errorf s = write param_error f_text s ∷ []
text_macro warnf s = write param_warn f_text s ∷ []
text_macro criticalf s = write param_critical f_text s ∷ []
text_macro infof s = write param_info f_text s ∷ []
text_macro debugf s = write param_debug f_text s ∷ []
text_macro tracef s = write param_trace f_text s ∷ []
text_macro fatal s = write_fatal_s param_fatal (bit_or f_text f_sync) s ∷ []
text_macro error s = write_s param_error f_text s ∷ []
text_macro warn s = write_s param_warn f_text s ∷ []
text_macro critical s = write_s param_critical f_text s ∷ []
text_macro info s = write_s param_info f_text s ∷ []
text_macro debug s = write_s param_debug f_text s ∷ []
text_macro trace s = write_s param_trace f_text s ∷ []
text_macro syn_fatalf s = write param_fatal (bit_or f_text f_sync) s ∷ wait ∷ []
text_macro syn_fatal s = write_s param_fatal (bit_or f_text f_sync) s ∷ wait ∷ []

unfoldable pub pure_macro : Macro → String → List Statement
pure_macro fatalf s = write param_fatal (bit_or f_pure f_sync) s ∷ wait ∷ abort ∷ []
pure_macro errorf s = write param_error f_pure s ∷ []
pure_macro warnf s = write param_warn f_pure s ∷ []
pure_macro criticalf s = write param_critical f_pure s ∷ []
pure_macro infof s = write param_info f_pure s ∷ []
pure_macro debugf s = write param_debug f_pure s ∷ []
pure_macro tracef s = write param_trace f_pure s ∷ []
pure_macro fatal s = write_fatal_s param_fatal (bit_or f_pure f_sync) s ∷ []
pure_macro error s = write_s param_error f_pure s ∷ []
pure_macro warn s = write_s param_warn f_pure s ∷ []
pure_macro critical s = write_s param_critical f_pure s ∷ []
pure_macro info s = write_s param_info f_pure s ∷ []
pure_macro debug s = write_s param_debug f_pure s ∷ []
pure_macro trace s = write_s param_trace f_pure s ∷ []
pure_macro syn_fatalf s = write param_fatal (bit_or f_pure f_sync) s ∷ wait ∷ []
pure_macro syn_fatal s = write_s param_fatal (bit_or f_pure f_sync) s ∷ wait ∷ []
