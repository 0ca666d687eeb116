-- ===== src/Names/Errors.antt =====
-- public/errorCode.h: why a room is not entered, and the errors of the requests.
use cppserver.Prelude.{List, [], ◌∷◌, String}
use cppserver.Prelude.Int.{ℤ, pos, negsuc}
use cppserver.Names.{Entry, xx, yy, rows_from, return_name, return_desc, return_msg}

unfoldable pub errorenterroom_map : List Entry
errorenterroom_map =
    yy "ERROR_ENTERROOM_NOSESSION" (pos 1) "对不起,连接会话丢失,请稍后重试."
    ∷ xx "ERROR_ENTERROOM_GAMENOTEXIST" "对不起,当前游戏服务不存在,请稍后重试."
    ∷ xx "ERROR_ENTERROOM_TABLE_FULL" "对不起,当前房间已满,请稍后重试."
    ∷ xx "ERROR_ENTERROOM_SEAT_FULL" "对不起,当前桌台已满,请稍后重试."
    ∷ xx "ERROR_ENTERROOM_USERNOTEXIST" "对不起,查询玩家信息失败,请稍后重试."
    ∷ xx "ERROR_ENTERROOM_SCORENOENOUGH" "对不起,您的金币不足,请充值后重试."
    ∷ xx "ERROR_ENTERROOM_ALREAY_START" "对不起,当前游戏已经开始,请耐心等待下一局."
    ∷ xx "ERROR_ENTERROOM_SCORELIMIT" "对不起,您的金币过多,无法进入当前房间."
    ∷ xx "ERROR_ENTERROOM_USERINGAME" "对不起,您当前正在别的游戏中,无法进入当前房间."
    ∷ xx "ERROR_ENTERROOM_SERVERSTOP" "对不起,当前游戏服务器正在维护,请稍后重试."
    ∷ xx "ERROR_ENTERROOM_LONGTIME_NOOP" "对不起,您长时间没有操作,已被请出当前房间."
    ∷ xx "ERROR_ENTERROOM_SWITCHTABLEFAIL" "对不起,当前游戏已经开始,请在游戏结束后换桌."
    ∷ xx "ERROR_ENTERROOM_GAME_IS_END" "对不起,断线重连，游戏已结束"
    ∷ xx "ERROR_ENTERROOM_PASSWORD_ERROR" "对不起，密码错误，进房间失败"
    ∷ xx "ERROR_ENTERROOM_STOP_CUR_USER" "对不起，当前用户账号已经冻结"
    ∷ xx "ERROR_ENTERROOM_USER_ORDER_SCORE" "您正在下分，请稍后进入房间"
    ∷ []

unfoldable pub errorcode_map : List Entry
errorcode_map =
    yy "CreateGameUser" (pos 10001) "创建游戏账号失败"
    ∷ xx "GameGateNotExist" "没有可用的游戏网关"
    ∷ xx "GameLoginNotExist" "没有可用的登陆节点"
    ∷ xx "GameApiNotExist" "没有可用的API节点"
    ∷ xx "Decrypt" "请求token参数解密失败"
    ∷ xx "CheckMd5" "请求token参数MD5校验失败"
    ∷ yy "InsideErrorOrNonExcutive" (negsuc 99) "内部异常或未执行任务"
    ∷ xx "GameHandleProxyIDError" "代理ID不存在或代理已停用"
    ∷ xx "GameHandleProxyMD5CodeError" "代理MD5校验码错误"
    ∷ xx "GameHandleProxyDESCodeError" "参数转码或代理解密校验码错误"
    ∷ xx "GameHandleParamsError" "传输参数错误"
    ∷ xx "GameHandleOperationTypeError" "操作类型参数错误"
    ∷ xx "GameHandleUserNotExistsError" "玩家账号不存在"
    ∷ xx "GameHandleUserLineCodeNull" "站点编码为空"
    ∷ xx "GameHandleUserLineCodeNotExists" "站点编码不存在"
    ∷ xx "GameHandleRequestInvalidation" "请求已失效"
    ∷ xx "CreateClub_OperationPermissionsErrAdmin" "创建俱乐部错误: 操作权限不够 非管理员"
    ∷ xx "CreateClub_OperationPermissionsErr" "创建俱乐部错误: 操作权限不够 非合伙人或盟主"
    ∷ xx "CreateClub_ClubNameExist" "创建俱乐部错误: 同名俱乐部已存在"
    ∷ xx "CreateClub_MaxNumLimit" "创建俱乐部错误: 创建俱乐部数量限制"
    ∷ xx "CreateClub_InsideError" "创建俱乐部错误: 操作内部异常"
    ∷ xx "JoinClub_InvitedUserNotExist" "加入俱乐部错误: 被邀请人不存在"
    ∷ xx "JoinClub_UserAlreadyInClub" "被邀请人已是俱乐部成员"
    ∷ xx "JoinClub_OperationPermissionsErrAdmin" "加入俱乐部错误: 操作权限不够 非管理员"
    ∷ xx "JoinClub_OperationPermissionsErr" "加入俱乐部错误: 您所在俱乐部操作权限不够 非合伙人或盟主"
    ∷ xx "JoinClub_InvitorNotInClubOrClubNotExist" "加入俱乐部错误: 邀请人不是俱乐部成员或俱乐部不存在"
    ∷ xx "JoinClub_InvalidInvitationcode" "加入俱乐部错误: 无效邀请码或已失效"
    ∷ xx "JoinClub_InvitationcodePermissionsErr" "加入俱乐部错误: 邀请码受限"
    ∷ xx "JoinClub_InsideError" "加入俱乐部错误: 操作内部异常"
    ∷ xx "ExitClub_UserNotInClub" "您已退出俱乐部或不是俱乐部成员"
    ∷ xx "ExitClub_InsideError" "退出俱乐部错误: 操作内部异常"
    ∷ xx "FireClub_UserNotInClub" "被开除用户不存在或已不是俱乐部成员或俱乐部不存在"
    ∷ xx "FireClub_NotInClubOrClubNotExist" "开除俱乐部成员错误: 您不是俱乐部成员或俱乐部不存在"
    ∷ xx "FireClub_OperationPermissionsErrAdmin" "开除俱乐部成员错误: 操作权限不够 非管理员"
    ∷ xx "FireClub_OperationPermissionsErr" "开除俱乐部成员错误: 您所在俱乐部操作权限不够 非合伙人或盟主"
    ∷ xx "FireClub_InsideError" "开除俱乐部成员错误: 操作内部异常"
    ∷ xx "OptClub_InvitedUserNotExist" "俱乐部设置修改失败: 设置用户不存在"
    ∷ xx "OptClub_NotInClubOrClubNotExist" "俱乐部设置修改失败: 您不是俱乐部成员或俱乐部不存在"
    ∷ xx "OptClub_MemberNotInClubOrClubNotExist" "俱乐部设置修改失败: 非俱乐部成员或俱乐部不存在"
    ∷ xx "OptClub_OperationPermissionsErrAdmin" "俱乐部设置修改失败: 操作权限不够 非管理员"
    ∷ xx "OptClub_OperationPermissionsErr" "俱乐部设置修改失败: 您所在俱乐部操作权限不够 非合伙人或盟主"
    ∷ xx "OptClub_MemberAlreadyPartnerError" "俱乐部设置修改失败: 成员已经升级为合伙人"
    ∷ xx "OptClub_ParameterError" "俱乐部设置修改失败: 参数错误"
    ∷ xx "OptClub_InsideError" "俱乐部设置修改失败: 内部错误"
    ∷ yy "AddScoreHandleInsertDataError" (pos 32) "玩家上分失败"
    ∷ xx "SubScoreHandleInsertDataError" "玩家下分失败"
    ∷ xx "SubScoreHandleUserNotExistsError" "玩家不存在"
    ∷ xx "SubScoreHandleInsertOrderIDExists" "玩家下分订单已存在"
    ∷ xx "SubScoreHandleInsertDataUserInGaming" "玩家正在游戏中，不能下分"
    ∷ xx "SubScoreHandleInsertDataOverScore" "玩家下分超出玩家现有总分值"
    ∷ xx "SubScoreHandleInsertDataOutTime" "玩家下分等待超时"
    ∷ xx "OrderScoreCheckOrderNotExistsError" "订单不存在"
    ∷ xx "OrderScoreCheckDataError" "订单查询错误"
    ∷ xx "OrderScoreCheckUserNotExistsError" "玩家不存在"
    ∷ xx "AddScoreHandleUserNotExistsError" "玩家不存在"
    ∷ xx "AddScoreHandleInsertDataOutTime" "玩家上分等待超时"
    ∷ xx "AddScoreHandleInsertDataOverScore" "玩家上分超出代理现有总分值"
    ∷ xx "AddScoreHandleInsertDataOrderIDExists" "玩家上分订单已存在"
    ∷ yy "KickOutGameUserOffLineUserAccountError" (pos 93) "玩家账号已被封停"
    ∷ xx "GameRecordGetNoDataError" "无注单数据"
    ∷ []

unfoldable pub get_error_name : ℤ → String
get_error_name v = return_name v (rows_from "k" (pos 0) errorcode_map)

unfoldable pub get_error_desc : ℤ → String
get_error_desc v = return_desc v (rows_from "k" (pos 0) errorcode_map)

unfoldable pub get_error_msg : ℤ → String
get_error_msg v = return_msg v (rows_from "k" (pos 0) errorcode_map)
