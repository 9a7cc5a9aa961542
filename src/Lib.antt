-- ===== src/Lib.antt =====
-- The EPICS driver twincat-ads: an asyn port driver that connects EPICS records to variables of a
-- Beckhoff TwinCAT PLC over ADS. The development models the core of the driver,
-- adsApp/src/adsAsynPortDriver.cpp with its header, and its helpers adsAsynPortDriverUtils.h and .cpp,
-- adsEthercatState.h, adsSymbolTable.h and adsAmsNetId.h.
--
-- Every request to the PLC goes out on a client port of AdsLib, which a thread opens and closes through
-- a guard. A record is a parameter, adsParamInfo. Its PLC information (type, size, symbol handle) is
-- fetched by an update, which then subscribes an input to a notification or places it in the table of
-- bulk reads. A refresh repeats the update for the parameters that an invalidation has marked. A write
-- from EPICS is turned into bytes of the PLC's type and sent as one request; what comes from the PLC is
-- turned into an asyn value. Parameters of the EtherCAT slave state group go to the EtherCAT master,
-- whose net id is resolved once.
--
-- TimeStamp: windowsToEpicsTimeStamp. ClientPort: the map from threads to client ports, with the guard
-- in ClientPort/History, and in ClientPort/Owned what it asks of AdsLib's ports. Ads: the structures,
-- and AdsLib as a record of functions. DataType: ADS types, their names and sizes. Symbol:
-- descriptions and handles (adsGetSymInfoByName, adsGetSymHandleByName, adsReleaseSymbolicHandle).
-- Notify: adsAddDataCallback, adsDelDataCallback and the symbol version callback. Bulk:
-- adsAddToBulkRead, adsFindBulkTimeStamp. Update: updateParamInfoWithPLCInfo; Update/Refresh:
-- refreshParams, invalidateParams. EtherCat: adsIsValidEthercatStateRequest,
-- resolveEthercatMasterAmsNetId and the checks that use it. Asyn: asyn's parameter library as a record
-- of functions, setAlarmParam, setAlarmPort. Transfer: adsWriteParam, adsReadParam; Transfer/Decode
-- and Transfer/Value: adsUpdateParameter and refreshParamTime; Transfer/Write: writeInt32, writeInt64,
-- adsWriteState.
-- Poll: getAdsParamInfo, and one pass of bulkReadThread over the table of bulk reads. PortList:
-- getAmsPortObject, addNewAmsPortToList, isCallbackAllowed.
-- Octet: the output buffer of the ASCII command interface (addToBuffer, cmd_buf_vprintf,
-- octetCmdBuf_printf, octetRemoveFromBuffer, octetClearBuffer, octetCMDreadIt).
-- Connection: the routes, adsConnect, adsDisconnect, connect, disconnect. Cyclic: a pass of cyclicThread
-- with adsReadState and adsReadVersion; Cyclic/Exits has runs of passes between the steps of other
-- threads, Cyclic/Pass and Cyclic/Lost one turn of its loop over the ports. Callback: adsDataCallback,
-- dataCallbackThread and adsSymbolsChangedCallback, with the orders of their steps as relations in
-- Callback/Order and Callback/Drain. Upload: resolveSymbolHandles and resolveSymbolInfo; Upload/Collect:
-- the symbols they ask for. Reads: readInt32, readFloat64, readInt64. Transfer/Write/Double:
-- writeFloat64. Arrays: the reads and writes of arrays; Arrays/Fire: fireCallbacksForArrayParam,
-- fireAllCallbacksLock and triggerEpicsIoIntrCallbacksThread.
-- Names: adsErrorToString; Names/States: adsStateToString, epicsStateToString, asynTypeToString,
-- dtypStringToAsynType. DrvInfo: validateDrvInfo; DrvInfo/Parse: parsePlcInfofromDrvInfo. NetId:
-- parseAmsNetId of adsApp/src/adsAmsNetId.h. What sscanf reads is a parameter of both.
-- DrvInfo/Records: buildDrvInfoCache, getRecordInfoFromDrvInfo; DrvInfo/Create: drvUserCreate, which joins
-- the parser, the cache, the connection, the upload of symbols and the update. Octet/Split:
-- octetCreateArgvSepv; Octet/Print, Octet/Print/Points: octetBinary2ascii; Octet/Scan: octetAscii2binary;
-- Octet/Commands: the parser of ASCII commands (octetCMDwriteIt, octetCmdHandleInputLine,
-- octetMotorHandleOneArg, octetMotorHandleADRCmd and the four requests they make); Octet/Commands/Io:
-- writeOctet, readOctet.
-- Construct: adsAsynPortDriverConfigure and the loop that waits for the PLC; Construct/Whole: the
-- constructor.
-- Examples: concrete instances of the parameters, and the theorems applied to them.
--
-- State is passed explicitly. AdsLib and asyn are records of functions over a state `W` of the world,
-- so every call is a step in the order of the source. Status codes of AdsLib are numbers, 0 for
-- success. The C arrays `bulk` and `bulkTS` are functions from the index; a write behind the end of
-- `bulkTS` is noted in the state (`overrun`). Where the ASCII commands would leave an array, for a name of
-- 255 bytes or more or the bare word ADSPORT, the result is `crashed`.
-- Pointers into the buffer of a symbol's description are offsets. `uint32_t` and `uint64_t` keep their
-- wrap-around where it can occur. The loops over arrays are structural recursion on the number of
-- entries left, which is the loop's own bound, so no fuel is needed. The loops of the ASCII commands run on
-- fuel: the splitting of a line has as many turns as the line has bytes, a value is printed in one turn more
-- than the variable has bytes and read in one turn more than its text has bytes; running out is a result of
-- its own. So does the loop of the constructor, which waits for the PLC.
--
-- Not modelled: messages and traces, and locks: each operation is one step, as under the driver's mutexes,
-- and where the code has none (datacbqueue) that is an assumption. Sleeps, the destructor, reports and
-- the registration of shell commands; what malloc refuses. Floating point conversions, the formats
-- of printf and sscanf and the EPICS database are parameters.
pub mod Base
pub mod TimeStamp
pub mod ClientPort
pub mod Ads
pub mod DataType
pub mod Symbol
pub mod Notify
pub mod Bulk
pub mod Update
pub mod EtherCat
pub mod Asyn
pub mod Transfer
pub mod PortList
pub mod Poll
pub mod Names
pub mod DrvInfo
pub mod NetId
pub mod Octet
pub mod Connection
pub mod Construct
pub mod Examples
pub mod Arrays
pub mod Callback
pub mod Cyclic
pub mod Reads
pub mod Upload
