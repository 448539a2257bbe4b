-- ===== src/Lib.antt =====
-- The C++ core of the EDPS PLC data acquisition system.
--
-- The system reads and writes variables of Siemens S7 controllers. SAPI/ does it through the S7
-- programming interface of a communication processor; OpcS7/ does it as a client of an OPC server.
-- Both are libraries that the Visual Basic programs of SIS/, FDIS/ and LEIS/ call; edpsrun/ starts
-- those programs.
--
-- Which file models what:
--   Base           numbers, lists and bytes, and `Run`: a run of stateful code ends with a value and a
--                  state, with a fault (an access that C++ leaves undefined), or out of fuel.
--   Crt            `atol`, `atoi`, `_ltoa` and `_itoa` of the C run-time on 32-bit patterns.
--   Sapi/Swap      SAPI/CConnection.cpp, `Convert2Flt` to `ConvertInt`: `convert2_flt` to `convert_int`.
--   Sapi/Env       the S7 library, the clock and what memory holds before it is written: parameters.
--   Sapi/Transfer  SAPI/CConnection.cpp, `Read` and `Write`: `read` and `write`. A round of the `do`
--                  loop is `round`, the `switch` is `read_message` or `write_message`, and what is
--                  behind it `after_message`.
--   Sapi/Data      `ReadData` and `WriteData`: `read_data` and `write_data`.
--   Sapi/Store     SAPI/CPSession.cpp and the global variables `Sess`, `ActSessQty`, `Con` and
--                  `ActConnQty`. Sessions live on a heap, since connections share them.
--   Sapi/Connection  the constructor and the destructor of `CConnection`: `new_connection` and
--                  `delete_connection`.
--   Sapi/Library   SAPI/SAPIlib.cpp: `sapi_read`, `sapi_write` and `sapi_shut`.
--   Opc/Frame      OpcS7/EdpsParams.cpp, `GetNextValue`: `split_field`.
--   Opc/Params     OpcS7/EdpsParams.h and .cpp, the entries of a parameter list: `add_item`,
--                  `add_item_value` and `get_list_name`.
--   Opc/Request    `CEdpsParamList::ParseRequest`: `parse_request`; the writers of requests, among
--                  them `AddData` of OpcS7/Test/Test.cpp.
--   Opc/Answer     `GetValueVariant` and `CEdpsParamList::GetMReadResult`: `get_value_variant` and
--                  `get_mread_result`.
--   Opc/Items      OpcS7/OPCRelease/OPCItems.h and .cpp, the items of a group, and `COPCGroup::ReadItems`
--                  and `WriteItems` of OpcS7/OPCRelease/OPCGroup.cpp: `read_items`, `write_items`.
--   Opc/Register   `GetNewItems` and `SetNewItemsRes` of OPCItems.cpp and `COPCGroup::AddItems`.
--   Opc/Objects    OpcS7/OPCRelease/CObject.h and .cpp, objects that count their references and the
--                  growing list of them: `add`, `remove`, `first` and `next`.
--   Opc/Group      OpcS7/OPCRelease/OPCGroup.cpp, the constructor of a group and `Detouch`: `new_group`,
--                  `detouch`.
--   Opc/Server     OpcS7/OPCRelease/OPCDAServer.cpp, the groups of a server: `add_group`,
--                  `get_group_by_name`; in Opc/Server/Remove and Opc/Server/Upload `remove_group`,
--                  `remove_groups` and `upload_groups`.
--   Opc/Session    `COpcServer::Connect` and `Disconnect`, and the mini-object for the server's
--                  shutdown: `connect`, `disconnect`.
--   Opc/Join       `CEdpsParamList::FindOrAddItemsToGroup`, and `COPCItemsList::AddItem`:
--                  `find_or_add_items_to_group`, `new_item`.
--   Opc/Single     `SingleItem`, `ReadValue` and `WriteValue` of EdpsParams.cpp: `single_item`,
--                  `read_value`, `write_value`.
--   Opc/Globals    OpcS7/OpcS7.cpp: the global variables, as `DllState`, and what is around the DLL, as
--                  `Around`.
--   Opc/Library    `DllMain`, `SAPI_Shut`, `ConnectToServer` and `GetOPCGroup`: `attach_process`,
--                  `sapi_shut`, `connect_to_server`, `get_opc_group`.
--   Opc/Exports    `SAPI_Read`, `SAPI_Write`, `SAPI_MRead` and `SAPI_MWrite`: `sapi_read` to `sapi_mwrite`.
--   Utils/Timer    edpsrun/EdpsUtils/EdpsTimer.h and .cpp: `put_enabled`, `put_interval` and the other
--                  operations of `CEdpsTimer`.
--   Examples       runs on a small device, and the theorems at concrete inputs.
--
-- How the parts interact: `sapi_read` finds or makes a connection, which finds or makes a session;
-- it then runs `read_data` on the connection, which runs `read`. A transfer that fails closes all.
-- On the side of OPC, a
-- call connects the server if need be; a group is found by its name or added to the server's list; the parameters of a
-- parsed request find their items in the group, or add them, and choose them; the group reads or writes
-- the chosen items, and the answer is put together from them.
--
-- Fuel and bounds: a transfer runs on so many rounds for each of its three attempts. A round sleeps
-- a millisecond at least, so ten seconds are over after ten thousand rounds; 10,001 are enough.
-- `parse_request` runs on as many rounds as the request has bytes, and one more. A `long` or an
-- `int` is its 32-bit pattern, a byte is below 256, and `length` counts the bytes before the
-- terminator of a text.
--
-- An array in a VARIANT is one of bytes whose lowest index is 0. The text of `SAPI_Write` lies in memory
-- that can be read as far as `STRING*n` says; that of a request lies in its block, and a read outside
-- that is a fault.
--
-- A search through a list of objects runs on as many rounds as the list has entries, and one more.
--
-- Parameters: the S7 library, the server behind COM, the timer queues of Windows and the run-time's
-- floating-point text. The theorems name what they take of them: `ClockLaws`,
-- `GcvtLaws`, `TimerLaws`, `SinkLaws`. What memory holds at `SessStatus` and `Session` of a new connection is a
-- parameter without a law: a theorem that needs a zero there says so of the state at hand.
--
-- Not modelled: the log texts; the handlers of OpcS7.cpp that turn a memory error into the code -10,
-- which is a fault of the run here; `GetStatus` and the locale of a server, `SetStatus` of a group, and
-- the code of a group's last operation, which nothing reads behind the constructor; the ini file of
-- OpcS7/DllIni.cpp, whose values are parameters; edpsrun/EdpsUtils/EventDispatch.cpp, which its
-- project does not build; generated interfaces; and the programs in Visual Basic. Memory for an
-- allocation is never refused, and what a destructor releases of a server's interfaces is left out.
pub mod Base
pub mod Crt
pub mod Sapi
pub mod Opc
pub mod Utils
mod Examples
